-- ===== src/Lib.antt =====
-- goloom plans posts and publishes them to social networks. An HTTP API (api/) takes posts from
-- users, from API tokens and from agents; a store (internal/store) keeps them; workers
-- (internal/scheduler) look for posts that are due and hand them to the clients of the networks
-- (internal/provider). Beside it, jobs of language models (internal/aijobs) write texts and,
-- where a team wants it, posts. This library models the rules on the way from a caller to a
-- network, and the life of a job.
--
-- Parts and files:
-- - Prelude: names of the libraries and helpers shared by all (lists, tests, integers, results).
--   Strings: what the program uses of Go's package strings.
-- - Domain (internal/domain/models.go, update_post_patch.go): users, callers, accounts and
--   posts. Domain/Post/Input, Status, Media, Overrides and Patch are one file for each group of
--   rules on posts: NormalizePostVisibility to FilterMediaIDsForAccount,
--   CreatePostInput.Normalize and Validate, ResolvePostInsert, ResolvePostStatusOnUpdate and
--   ApplyPostPatch.
-- - Auth (internal/auth/scopes.go, auth.go): scopes of tokens, ScopeSatisfied, PrincipalAllows,
--   PrincipalCanManageAPIToken and PrincipalHasTeamAccess. Auth/Routes
--   (api/token_route_policy.go) is tokenRouteAllows. Auth/Scopes, Auth/Delegation and
--   Auth/Routes/Laws hold their theorems.
-- - Postvalidate (internal/postvalidate, internal/textcount): Check and CheckLimits.
-- - Postservice (internal/postservice): ResolveTargets, and in Postservice/Prepare
--   Service.Prepare, which every interactive creation or update of a post goes through. It uses
--   Domain and Postvalidate. Postservice/Teams holds the lemmas on the team of the targets.
-- - Scheduling (internal/scheduling/recurrence.go): the rules of recurring posts and
--   ValidateRecurrenceRule; Scheduling/Ordinal is ordinalWeekdayDay, Scheduling/Occurrences
--   holds the theorem on effectiveOrdinalOccurrences, and Scheduling/Next is NextOccurrence with
--   its searches.
-- - Publish: the rows of one post in the store (internal/store/sqlite) with one function for
--   each SQL statement; Publish/Edit is PatchScheduledPost; Publish/Provider is what a worker
--   meets outside these rows, with internal/socialtokens; Publish/Worker is a round of
--   processPost for one target, failPost and persistTargetOutcome, Publish/Worker/Run the whole
--   of processPost and enqueueDuePosts. Publish/Invariant, Publish/Safety, Publish/Attempts and
--   Publish/Delivery hold the theorems, Publish/Frame, Publish/Sent and Publish/Team the lemmas on
--   what a run or an edit does to the rows and the calls as a whole. Publish/Create is
--   CreateScheduledPost.
-- - Api (api/http.go): the handlers that create, update, cancel and delete a post, each in the
--   transaction of auditedHandler (api/audit_transaction.go), so that a handler gives the new
--   rows or a refusal. They call Auth, Postservice and Publish. Api/Posts has the handlers
--   besides handleUpdatePost; Api/Update, Api/Creation and Api/Life hold the
--   theorems.
-- - Jobs (internal/store/sqlite/ai.go): the rows of AI jobs with one function for each SQL
--   statement; Jobs/Postgres has those of internal/store/postgres/ai.go that differ.
--   Jobs/Effects and Jobs/Completion are CompleteAIJob (api/ai_callback.go) and
--   persistCompletion, Jobs/Manager is the manager (internal/aijobs/manager.go) with its
--   executions and slots, Jobs/Cancel the cancellation by a user (api/ai_cancel.go) and by a
--   change of an automation (internal/scheduler/template_regenerate.go). Jobs/Changes lists the
--   steps of all goroutines and handlers. Jobs/Counts, Ends, Completed, Changes and
--   Closing hold the lemmas, Jobs/Sound, Lifecycle, Finality, Slots, Outcome and Recovery the
--   theorems.
-- - Aicontext (internal/aicontext/selection.go): Select, what of a team's context a job sees.
-- - Locks (internal/store/sqlite/tokens_metrics.go): TryAcquireLock.
-- - Security (internal/security/security.go): encryption of stored secrets.
-- - Sse (internal/sse): the hub of the event stream and its clients. Sse/Faithful has what each
--   operation does to a client, Sse/Laws the theorem.
-- - Tests: the definitions and theorems at concrete inputs.
--
-- How code is read: a function of Go is a function by clauses with the same name in snake case;
-- an error is an option or a result; a loop is a structural recursion, on the rounds that are
-- left where it counts them, so that nothing runs out of fuel; a map is an association list,
-- whose order stands for the order in which Go walks the map; an instant is a number of
-- nanoseconds, and time.Now() is the argument now, one value for a whole run. A transaction is
-- one function; whether it commits is an argument. What the goroutines of jobs do between two
-- statements is one step, and the steps come in any order.
--
-- What is a parameter: the networks, decryption of tokens, the queries of accounts and whether
-- each transaction commits (World in Publish/Provider), what the runner of a job and its side
-- effects come to (Calls and Payload in Jobs/Effects), the decoded bodies of requests, the
-- provider registry, the count of graphemes and the patterns for Mastodon (Env in Postvalidate),
-- the zone of a rule, the roles that the store reports, what the type jsonb of PostgreSQL makes of
-- a text (to_jsonb in Jobs/Postgres). Where a theorem needs a promise of one of them, it is a
-- hypothesis: IsWorld (an account read by its id has that id), IsCipher (the cipher and the
-- encoding are undone by their inverses), IsLoader (accounts are loaded by id, and have a team),
-- IsTable (the table of accounts gives each id one team), IsCalendar (each local midnight of a
-- month exists, so that its weekdays follow each other) and IsForward (adding years gives a later
-- instant).
--
-- What is not modelled: runs on the same post at the same time, and a cancellation during a run;
-- the worker's queue; metrics, imports, campaigns and templates; the posts that a completed job
-- creates (finishRSSAutomationFromAI and its like), of which only the outcome counts; the metadata
-- of audit events; the other HTTP handlers and the middleware; what happens between two locks of
-- one operation of the event stream, and the handler that writes it; the rest of the PostgreSQL
-- store, whose statements are the same in another dialect; and the clients of the networks and of
-- language models.
pub mod Prelude
pub mod Strings
pub mod Domain
pub mod Auth
pub mod Postvalidate
pub mod Postservice
pub mod Scheduling
pub mod Jobs
pub mod Aicontext
pub mod Publish
pub mod Locks
pub mod Security
pub mod Api
pub mod Sse
pub mod Tests
