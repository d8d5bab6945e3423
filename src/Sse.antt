-- ===== src/Sse.antt =====
-- The event stream (internal/sse): the hub of a process and its clients. Each operation of the
-- hub or of a client is one step.
pub mod Faithful
pub mod Laws
use goloom.Prelude.{
  ℕ, zero, suc, String, Bool, true, false, List, [], ◌∷◌, ◌++◌, map, ltb, if◌then◌else◌, ◌==◌,
  eq_nat, eq_text, length,
}

-- An event; its data is `content`, and retry is 0 where there is none.
pub record Event : Type 0 where
  pub id : String
  pub type : String
  pub content : String
  pub retry : ℕ

abbrev pub client_buffer_size : ℕ
client_buffer_size = 64

-- A client with what is left in its channel. `closing` says that a goroutine is to close it, and
-- `registered` that it stands in the hub's map under its team. What its reader has taken from the
-- channel and what was published to its team since it subscribed serve the theorems.
pub record Client : Type 0 where
  pub team_id : String
  pub last_event_id : String
  pub buffer : List Event
  pub closing : Bool
  pub closed : Bool
  pub registered : Bool
  pub received : List Event
  pub since : List Event

pub record Hub : Type 0 where
  pub clients : List Client
  pub closed : Bool

abbrev new_client : String → String → Client
new_client team_id last_event_id = record {
  team_id = team_id;
  last_event_id = last_event_id;
  buffer = [];
  closing = false;
  closed = false;
  registered = false;
  received = [];
  since = [];
}

-- `Client.Close`; what is in the channel can still be read.
abbrev pub close_client : Client → Client
close_client c = record c { closed = true }

unfoldable pub send_event : Event → Client → Bool × Client
send_event event c =
    if c.closed
    then (false, c)
    else if ltb (length c.buffer) client_buffer_size
    then (true, record c { buffer = c.buffer ++ event ∷ [] })
    else (false, record c { closing = true })

abbrev pub heartbeat : Event
heartbeat = record { id = ""; type = "heartbeat"; content = "{}"; retry = 0 }

abbrev pub run_heartbeat : Client → Client
run_heartbeat c = (send_event heartbeat c).1

-- The goroutine that `Send` started on a full channel.
abbrev pub run_close : Client → Client
run_close c = if c.closing then close_client c else c

abbrev pub take_event : List Event → Client → Client
take_event [] c = c
take_event (event ∷ rest) c = record c { buffer = rest; received = c.received ++ event ∷ [] }

-- The reader takes an event from the channel.
unfoldable pub receive : Client → Client
receive c = take_event c.buffer c

abbrev pub remove_client : Client → Client
remove_client c = close_client (record c { registered = false })

abbrev pub after_send : Bool × Client → Client
after_send (true, c) = c
after_send (false, c) = remove_client c

abbrev pub noted : Event → Client → Client
noted event c = record c { since = c.since ++ event ∷ [] }

unfoldable pub publish_to : String → Event → Client → Client
publish_to team_id event c =
    if c.team_id == team_id
    then noted event (if c.registered then after_send (send_event event c) else c)
    else c

unfoldable pub publish_event : String → Event → Hub → Hub
publish_event team_id event h =
    if h.closed then h else record h { clients = map (publish_to team_id event) h.clients }

unfoldable pub subscribe : String → String → Hub → Hub
subscribe team_id last_event_id h =
    let client = new_client team_id last_event_id in
    let joined = if h.closed then close_client client else record client { registered = true } in
    record h { clients = h.clients ++ joined ∷ [] }

abbrev pub end_stream : Client → Client
end_stream c = if c.registered then remove_client c else c

unfoldable pub close_hub : Hub → Hub
close_hub h = if h.closed then h else record { clients = map end_stream h.clients; closed = true }

abbrev pub update_at : ℕ → (Client → Client) → List Client → List Client
update_at n f [] = []
update_at zero f (c ∷ cs) = f c ∷ cs
update_at (suc n) f (c ∷ cs) = c ∷ update_at n f cs

-- A step of one client.
abbrev pub at_client : ℕ → (Client → Client) → Hub → Hub
at_client n f h = record h { clients = update_at n f h.clients }
