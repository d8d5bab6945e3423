-- ===== src/Sse/Faithful.antt =====
-- What each operation of a client of the event stream does to what it gets.
use goloom.Sse.{
  Event, Client, client_buffer_size, send_event, heartbeat, run_heartbeat, run_close, receive,
  take_event, noted, after_send, remove_client, close_client, publish_to, end_stream,
}
use mathlib.Core.List.{append_assoc, append-nil}
use goloom.Prelude.{
  ◌+◌, ◌≤◌, String, ◌≡◌, refl, sym, ap, subst, ◌∙◌, inl, inr, Bool, true, false, not, List, [], ◌∷◌,
  ◌++◌, arith, ltb, if-both, if-split, ◌==◌, eq_nat, eq_text, Bool-cases, length, keep,
}

abbrev pub is_heartbeat : Event → Bool
is_heartbeat event = event.type == "heartbeat"

abbrev pub real_events : List Event → List Event
real_events events = keep (λ event. not (is_heartbeat event)) events

-- The events that went into the channel, without the heartbeats.
abbrev pub stream : Client → List Event
stream c = real_events (c.received ++ c.buffer)

-- The channel is within its size; what went into it are the first of the events published to the
-- team since the client subscribed, and all of them while the client is open.
pub record IsFaithful (c : Client) : Type 0 where
  pub bounded : length c.buffer ≤ client_buffer_size
  pub missed : List Event
  pub in_order : c.since ≡ stream c ++ missed
  pub complete : c.closed ≡ false → (missed ≡ []) × (c.registered ≡ true)

module _ (c : Client) (f : IsFaithful c) where
  close_client-IsFaithful : IsFaithful (close_client c)
  close_client-IsFaithful = record {
    bounded = f.bounded;
    missed = f.missed;
    in_order = f.in_order;
    complete = λ open_client. absurd (cc open_client);
  }

  pub remove_client-IsFaithful : IsFaithful (remove_client c)
  remove_client-IsFaithful = record {
    bounded = f.bounded;
    missed = f.missed;
    in_order = f.in_order;
    complete = λ open_client. absurd (cc open_client);
  }

  pub run_close-IsFaithful : IsFaithful (run_close c)
  run_close-IsFaithful = if-both IsFaithful c.closing close_client-IsFaithful f

  pub end_stream-IsFaithful : IsFaithful (end_stream c)
  end_stream-IsFaithful = if-both IsFaithful c.registered remove_client-IsFaithful f

  take_event-IsFaithful :
      (events : List Event) → c.buffer ≡ events → IsFaithful (take_event events c)
  take_event-IsFaithful [] e = f
  take_event-IsFaithful (event ∷ rest) e = record {
    bounded =
        let fits : length (event ∷ rest) ≤ client_buffer_size =
          subst (λ b. length b ≤ client_buffer_size) e f.bounded in
        omega arith;
    missed = f.missed;
    in_order =
        rw (append_assoc c.received (event ∷ []) rest)
          (subst (λ b. c.since ≡ real_events (c.received ++ b) ++ f.missed) e f.in_order);
    complete = f.complete;
  }

  pub receive-IsFaithful : IsFaithful (receive c)
  unfolding receive
  receive-IsFaithful = take_event-IsFaithful c.buffer refl

  full-IsFaithful : IsFaithful (record c { closing = true })
  full-IsFaithful = record {
    bounded = f.bounded;
    missed = f.missed;
    in_order = f.in_order;
    complete = f.complete;
  }

  noted-IsFaithful : (event : Event) → c.closed ≡ true → IsFaithful (noted event c)
  noted-IsFaithful event over = record {
    bounded = f.bounded;
    missed = f.missed ++ event ∷ [];
    in_order =
        ap (λ xs. xs ++ event ∷ []) f.in_order ∙ append_assoc (stream c) f.missed (event ∷ []);
    complete = λ open_client. absurd (grind arith);
  }

real_events-heartbeat : (xs : List Event) → real_events (xs ++ heartbeat ∷ []) ≡ real_events xs
real_events-heartbeat [] = refl
real_events-heartbeat (x ∷ xs) = rw (real_events-heartbeat xs) refl

real_events-event :
    (xs : List Event) (event : Event)
    → is_heartbeat event ≡ false
    → real_events (xs ++ event ∷ []) ≡ real_events xs ++ event ∷ []
real_events-event [] event real = rw real refl
real_events-event (x ∷ xs) event real = elim (Bool-cases (is_heartbeat x)) [
  | inl pulse ↦ rw pulse (real_events-event xs event real)
  | inr other ↦ rw other (ap (λ ys. x ∷ ys) (real_events-event xs event real))
]

length-snoc : (xs : List Event) (x : Event) → length (xs ++ x ∷ []) ≡ length xs + 1
length-snoc [] x = refl
length-snoc (y ∷ xs) x = let rest = length-snoc xs x in omega arith

room-bounded :
    (xs : List Event) (x : Event)
    → ltb (length xs) client_buffer_size ≡ true
    → length (xs ++ x ∷ []) ≤ client_buffer_size
room-bounded xs x room = let longer = length-snoc xs x in grind arith

abbrev pushed : Event → Client → Client
pushed event c = record c { buffer = c.buffer ++ event ∷ [] }

module _ (c : Client) (f : IsFaithful c) where
  pushed-heartbeat-IsFaithful :
      ltb (length c.buffer) client_buffer_size ≡ true → IsFaithful (pushed heartbeat c)
  pushed-heartbeat-IsFaithful room = record {
    bounded = room-bounded c.buffer heartbeat room;
    missed = f.missed;
    in_order =
        f.in_order
        ∙ ap (λ xs. xs ++ f.missed)
            (sym (real_events-heartbeat (c.received ++ c.buffer))
              ∙ ap real_events (append_assoc c.received c.buffer (heartbeat ∷ [])));
    complete = f.complete;
  }

  pushed-event-IsFaithful :
      (event : Event)
      → is_heartbeat event ≡ false
      → c.closed ≡ false
      → ltb (length c.buffer) client_buffer_size ≡ true
      → IsFaithful (noted event (pushed event c))
  pushed-event-IsFaithful event real open_client room = record {
    bounded = room-bounded c.buffer event room;
    missed = [];
    in_order =
        ap (λ xs. xs ++ event ∷ [])
          (f.in_order
            ∙ ap (λ xs. stream c ++ xs) (f.complete open_client).0
            ∙ append-nil (stream c))
        ∙ sym (real_events-event (c.received ++ c.buffer) event real)
        ∙ ap real_events (append_assoc c.received c.buffer (event ∷ []))
        ∙ sym (append-nil _);
    complete = λ still. (refl, (f.complete still).1);
  }

  pub run_heartbeat-IsFaithful : IsFaithful (run_heartbeat c)
  unfolding send_event
  run_heartbeat-IsFaithful =
      if-split (λ (r : Bool × Client). IsFaithful r.1) c.closed (λ over. f)
        (λ open_client.
          if-split (λ (r : Bool × Client). IsFaithful r.1)
            (ltb (length c.buffer) client_buffer_size) pushed-heartbeat-IsFaithful
            (λ full. full-IsFaithful c f))

  delivered-IsFaithful :
      (event : Event)
      → is_heartbeat event ≡ false
      → IsFaithful (noted event (after_send (send_event event c)))
  unfolding send_event
  delivered-IsFaithful event real =
      let P : Bool × Client → Type 0 = λ r. IsFaithful (noted event (after_send r)) in
      if-split P c.closed
        (λ over. noted-IsFaithful (remove_client c) (remove_client-IsFaithful c f) event refl)
        (λ open_client.
          if-split P (ltb (length c.buffer) client_buffer_size)
            (pushed-event-IsFaithful event real open_client)
            (λ full.
              noted-IsFaithful _ (remove_client-IsFaithful _ (full-IsFaithful c f)) event refl))

  pub publish_to-IsFaithful :
      (team_id : String) (event : Event)
      → is_heartbeat event ≡ false
      → IsFaithful (publish_to team_id event c)
  unfolding publish_to
  publish_to-IsFaithful team_id event real =
      if-both IsFaithful (c.team_id == team_id)
        (if-split (λ c'. IsFaithful (noted event c')) c.registered
          (λ in_map. delivered-IsFaithful event real)
          (λ out. noted-IsFaithful c f event (unregistered-closed out)))
        f
    where
      unregistered-closed : c.registered ≡ false → c.closed ≡ true
      unregistered-closed out = elim (Bool-cases c.closed) [
        | inl over ↦ over
        | inr open_client ↦ absurd (let in_map = (f.complete open_client).1 in grind arith)
      ]
