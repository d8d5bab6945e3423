-- ===== src/Sse/Laws.antt =====
-- What the clients of the event stream get, over the life of a hub.
use goloom.Sse.{
  Event, Client, Hub, run_heartbeat, run_close, receive, remove_client, publish_event, subscribe,
  close_hub, at_client, update_at,
}
use goloom.Sse.Faithful.{
  is_heartbeat, IsFaithful, run_close-IsFaithful, end_stream-IsFaithful, receive-IsFaithful,
  remove_client-IsFaithful, run_heartbeat-IsFaithful, publish_to-IsFaithful,
}
use goloom.Prelude.{
  ℕ, zero, suc, String, ◌≡◌, refl, false, List, [], ◌∷◌, ◌++◌, map, arith, if-both, All,
}

-- One step of a handler, a reader, a heartbeat or a goroutine. Only heartbeats have their type.
pub data Step (h : Hub) : Hub → Type 0 where
  subscribed : (team_id last_event_id : String) → Step h (subscribe team_id last_event_id h)
  published :
      (team_id : String) (event : Event)
      → is_heartbeat event ≡ false
      → Step h (publish_event team_id event h)
  unsubscribed : (n : ℕ) → Step h (at_client n remove_client h)
  was_read : (n : ℕ) → Step h (at_client n receive h)
  beat : (n : ℕ) → Step h (at_client n run_heartbeat h)
  close_ran : (n : ℕ) → Step h (at_client n run_close h)
  hub_closed : Step h (close_hub h)

pub data Reaches (h : Hub) : Hub → Type 0 where
  initially : Reaches h h
  step : {m n : Hub} → Reaches h m → Step m n → Reaches h n

abbrev pub new_hub : Hub
new_hub = record { clients = []; closed = false }

All-update_at :
    (P : Client → Type 0) (f : Client → Client) (n : ℕ) (cs : List Client)
    → ((c : Client) → P c → P (f c))
    → All P cs
    → All P (update_at n f cs)
All-update_at P f n [] keeps old = tt
All-update_at P f zero (c ∷ cs) keeps old = (keeps c old.0, old.1)
All-update_at P f (suc n) (c ∷ cs) keeps old = (old.0, All-update_at P f n cs keeps old.1)

All-map :
    (P : Client → Type 0) (f : Client → Client) (cs : List Client)
    → ((c : Client) → P c → P (f c))
    → All P cs
    → All P (map f cs)
All-map P f [] keeps old = tt
All-map P f (c ∷ cs) keeps old = (keeps c old.0, All-map P f cs keeps old.1)

All-snoc :
    (P : Client → Type 0) (cs : List Client) (c : Client) → All P cs → P c → All P (cs ++ c ∷ [])
All-snoc P [] c old new = (new, tt)
All-snoc P (d ∷ cs) c old new = (old.0, All-snoc P cs c old.1 new)

subscribe-IsFaithful :
    (team_id last_event_id : String) (h : Hub)
    → All IsFaithful h.clients
    → All IsFaithful (subscribe team_id last_event_id h).clients
unfolding subscribe
subscribe-IsFaithful team_id last_event_id h old = All-snoc IsFaithful h.clients _ old (
    if-both IsFaithful h.closed
      (record {
        bounded = omega arith;
        missed = [];
        in_order = refl;
        complete = λ open_client. absurd (cc open_client);
      })
      (record {
        bounded = omega arith;
        missed = [];
        in_order = refl;
        complete = λ _. (refl, refl);
      }))

abbrev Faithful : Hub → Type 0
Faithful h = All IsFaithful h.clients

Step-Faithful : (h h' : Hub) → Step h h' → Faithful h → Faithful h'
unfolding publish_event close_hub
Step-Faithful h h' (subscribed team_id last_event_id) old =
    subscribe-IsFaithful team_id last_event_id h old
Step-Faithful h h' (published team_id event real) old =
    if-both Faithful h.closed old
      (All-map IsFaithful _ h.clients (λ c f. publish_to-IsFaithful c f team_id event real) old)
Step-Faithful h h' (unsubscribed n) old =
    All-update_at IsFaithful _ n h.clients remove_client-IsFaithful old
Step-Faithful h h' (was_read n) old = All-update_at IsFaithful _ n h.clients receive-IsFaithful old
Step-Faithful h h' (beat n) old =
    All-update_at IsFaithful _ n h.clients run_heartbeat-IsFaithful old
Step-Faithful h h' (close_ran n) old =
    All-update_at IsFaithful _ n h.clients run_close-IsFaithful old
Step-Faithful h h' hub_closed old =
    if-both Faithful h.closed old (All-map IsFaithful _ h.clients end_stream-IsFaithful old)

-- Whatever subscriptions, publications, removals, reads, heartbeats and closings follow each other, if
-- only heartbeats have their type: the channel of a client holds at most its size; what went into it,
-- without the heartbeats, are the first of the events published to its team since it subscribed, in
-- order and without a gap, and all of them while the client is open, which is then in the map.
pub Reaches-IsFaithful : (h : Hub) → Reaches new_hub h → All IsFaithful h.clients
Reaches-IsFaithful h initially = tt
Reaches-IsFaithful h (step {m} path s) = Step-Faithful m h s (Reaches-IsFaithful m path)
