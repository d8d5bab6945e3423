-- ===== src/Tests/Services.antt =====
-- Locks, encryption and the selection of a context at concrete inputs.
use goloom.Locks.{Attempt, Disjoint, attempts, try_acquire_lock, leases-Disjoint}
use goloom.Security.{Bytes, Encrypter, IsCipher, encrypt, decrypt, decrypt-encrypt}
use goloom.Aicontext.{KnowledgeSource, StyleExample, AiContext, Params, select}
use goloom.Aicontext.Laws.{IsSelected, select-IsSelected}
use goloom.Prelude.Result.{ok}
use goloom.Sse.{Event, Hub, subscribe, publish_event, receive, at_client}
use goloom.Sse.Faithful.{IsFaithful}
use goloom.Sse.Laws.{
  Reaches, initially, step, subscribed, published, was_read, new_hub, Reaches-IsFaithful,
}
use goloom.Prelude.{
  ℕ, String, ◌≡◌, refl, ap, Option, none, some, List, [], ◌∷◌, ◌++◌, length, All, drop, drop-append,
}

abbrev calls : List Attempt
calls =
    record { now = 10; duration = 5; lock_id = "tick" }
    ∷ record { now = 12; duration = 5; lock_id = "tick" }
    ∷ record { now = 16; duration = 5; lock_id = "tick" }
    ∷ []

-- The second call comes while the first lease runs.
two-granted : length (attempts calls [] []) ≡ 2
unfolding attempts try_acquire_lock
two-granted = refl

leases-Disjoint_example : Disjoint (attempts calls [] [])
leases-Disjoint_example = leases-Disjoint calls

-- A cipher that writes the nonce before the text, and an encoding that writes a sign before it.
abbrev unsigned : Bytes → Option Bytes
unsigned [] = none
unsigned (sign ∷ bytes) = some bytes

abbrev encrypter : Encrypter
encrypter = record {
  nonce_size = 2;
  seal = λ nonce plaintext. nonce ++ plaintext;
  open_sealed = λ nonce ciphertext. some (drop (length nonce) ciphertext);
  encode = λ bytes. 61 ∷ bytes;
  decode = unsigned;
}

encrypter-IsCipher : IsCipher encrypter
encrypter-IsCipher = record {
  opens = λ nonce plaintext. ap some (drop-append nonce plaintext);
  decodes = λ bytes. refl;
}

seven-encrypted : encrypt encrypter (some (1 ∷ 2 ∷ [])) (7 ∷ []) ≡ ok (61 ∷ 1 ∷ 2 ∷ 1 ∷ 2 ∷ 7 ∷ [])
unfolding encrypt
seven-encrypted = refl

decrypt-encrypt_example : decrypt encrypter (61 ∷ 1 ∷ 2 ∷ 1 ∷ 2 ∷ 7 ∷ []) ≡ ok (7 ∷ [])
decrypt-encrypt_example =
    decrypt-encrypt encrypter (1 ∷ 2 ∷ []) (7 ∷ []) (61 ∷ 1 ∷ 2 ∷ 1 ∷ 2 ∷ 7 ∷ []) encrypter-IsCipher
      refl seven-encrypted

abbrev source : String → String → KnowledgeSource
source id team_id = record { id = id; team_id = team_id; name = id; content = "c" }

abbrev example : String → ℕ → StyleExample
example id created_at = record {
  id = id;
  team_id = "t";
  platform = "";
  content = "c";
  created_at = created_at;
}

abbrev context : AiContext
context = record {
  team_id = "t";
  campaign_formats = [];
  style_examples = example "1" 1 ∷ example "2" 2 ∷ example "3" 3 ∷ example "4" 4 ∷ [];
  knowledge_sources = source "a" "t" ∷ source "b" "other" ∷ [];
  accounts = [];
}

abbrev params : Params
params = record {
  knowledge_source_ids = some ("a" ∷ "a" ∷ []);
  campaign_format_id = "";
  campaign_format_alias = "";
  target_account_ids = [];
  target_account_alias = [];
  platform = "mastodon";
}

abbrev selected : AiContext
selected = record context {
  style_examples = example "4" 4 ∷ example "3" 3 ∷ example "2" 2 ∷ [];
  knowledge_sources = source "a" "t" ∷ [];
}

params-selected : select (λ s. s) context params ≡ some selected
unfolding select goloom.Aicontext.select_sources goloom.Aicontext.wanted_sources
    goloom.Aicontext.pick_sources goloom.Domain.Post.lookup goloom.Aicontext.available
    goloom.Domain.Post.put goloom.Aicontext.select_examples goloom.Aicontext.wanted_platforms
    goloom.Aicontext.target_platforms goloom.Aicontext.newest_first goloom.Aicontext.insert_newest
    goloom.Aicontext.is_fitting goloom.Strings.is_blank
params-selected = refl

select-IsSelected_example : IsSelected context (λ s. s) params selected
select-IsSelected_example = select-IsSelected context (λ s. s) params selected params-selected

abbrev finished_event : Event
finished_event = record { id = "j"; type = "job:result"; content = "{}"; retry = 0 }

abbrev read_hub : Hub
read_hub = at_client 0 receive (publish_event "team" finished_event (subscribe "team" "" new_hub))

read-Reaches : Reaches new_hub read_hub
read-Reaches =
    step (step (step initially (subscribed "team" "")) (published "team" finished_event refl))
      (was_read 0)

Reaches-IsFaithful_example : All IsFaithful read_hub.clients
Reaches-IsFaithful_example = Reaches-IsFaithful read_hub read-Reaches
