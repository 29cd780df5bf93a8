-- ===== src/Session.antt =====
-- The session of shared/session.go. A method that changes `*BaseSession` returns the new record.
-- `output` is the channel: `none` once it is nil, else the messages that no receiver has taken.
-- Locks, logging and the clock are left out: the time is the argument `now`.
pub mod Send
pub mod Bounds
pub mod Sending
pub mod Ownership
pub mod Correlation
pub mod Sync
pub mod Responding
pub mod Examples
use gate4ai.Dict
use gate4ai.Jsonrpc.{IdValue, Message, request_id_from_uint64}
use gate4ai.Prelude.{
  ℕ, ◌+◌, ◌%◌, ◌^◌, Bool, true, false, ◌||◌, Option, none, some, List, [], ◌∷◌, ◌++◌, String, ◌==◌,
  ltb, if◌then◌else◌, is_none, length,
}
use gate4ai.Requests.{RequestManager, new_request_manager}

pub data Status : Type 0 where
  new connecting connected disconnected : Status

abbrev pub is_connected : Status → Bool
is_connected connected = true
is_connected _ = false

abbrev pub is_connecting : Status → Bool
is_connecting connecting = true
is_connecting _ = false

pub record Session : Type 0 where
  pub id : String
  pub message_id : ℕ
  pub created_at : ℕ
  pub last_activity : ℕ
  pub status : Status
  pub requests : RequestManager
  pub output : Option (List Message)
  pub is_output_acquired : Bool
  pub negotiated_version : String

-- make(chan *Message, 100)
abbrev pub output_capacity : ℕ
output_capacity = 100

-- `random_id` is what `RandomID` draws.
unfoldable pub new_session : String → String → ℕ → Session
new_session random_id id now = record {
  id = if id == "" then random_id else id;
  message_id = 0;
  created_at = now;
  last_activity = now;
  status = new;
  requests = new_request_manager;
  output = some [];
  is_output_acquired = false;
  negotiated_version = "";
}

unfoldable pub next_message_id : Session → Session × IdValue
next_message_id s =
    let n = (s.message_id + 1) % 2 ^ 64 in (record s { message_id = n }, request_id_from_uint64 n)

abbrev pub set_status : Session → Status → Session
set_status s status = record s { status = status }

abbrev pub update_last_activity : Session → ℕ → Session
update_last_activity s now = record s { last_activity = now }

abbrev pub set_negotiated_version : Session → String → Session
set_negotiated_version s version = record s { negotiated_version = version }

close_output : Option (List Message) → Session → Session
close_output none s = s
close_output (some _) s = record s { is_output_acquired = false; output = none }

unfoldable pub close : Session → Session
unfolding close_output
close s = close_output s.output (record s { status = new })

-- The flag says whether the caller got the channel.
unfoldable pub acquire_output : Session → Session × Bool
acquire_output s =
    if s.is_output_acquired || is_none s.output
    then (s, false)
    else (record s { is_output_acquired = true }, true)

unfoldable pub release_output : Session → Session
release_output s = record s { is_output_acquired = false }

take_first : Option (List Message) → Session → Option (Message × Session)
take_first (some (m ∷ rest)) s = some (m, record s { output = some rest })
take_first _ s = none

-- `<-output` by whoever holds the channel; `none` where the receiver waits, or finds it closed.
unfoldable pub receive : Session → Option (Message × Session)
unfolding take_first
receive s = take_first s.output s

-- `output <- msg`: the state after it, or `none` where the channel is nil or full, and the sender
-- waits.
enqueue : Option (List Message) → Message → Session → Option Session
enqueue none m s = none
enqueue (some q) m s =
    if ltb (length q) output_capacity then some (record s { output = some (q ++ m ∷ []) }) else none

unfoldable pub push : Session → Message → Option Session
unfolding enqueue
push s m = enqueue s.output m s
