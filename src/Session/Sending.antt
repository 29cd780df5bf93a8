-- ===== src/Session/Sending.antt =====
-- When a response leaves the session: `SendResponse` of shared/session.go on every branch.
use gate4ai.Jsonrpc.{RequestId, Answer, GoError, Message}
use gate4ai.Prelude.{
  ap, ◌↔◌, none, ℕ, ◌<◌, ◌≡◌, ◌≢◌, Bool, true, false, Option, some, List, [], ◌∷◌, ◌++◌, arith,
  length,
}
use gate4ai.Session.Send.{
  not_sendable, send_response, response_message, is_initialize_response, is_nothing, queued,
}
use gate4ai.Session.{Session, Status, connecting, connected}

-- The session takes responses: it is connected or connecting, or the response is the result of
-- `initialize`.
abbrev pub MaySend : Status → Bool → Type 0
MaySend connected b = Unit {0}
MaySend connecting b = Unit {0}
MaySend _ b = b ≡ true

-- A response with content, on an open channel with room, in a session that takes it, is appended
-- to the channel.
pub send_response-queued :
    (s : Session) (id : RequestId) (result : Answer) (err : Option GoError) (now : ℕ)
    (q : List Message)
    → is_nothing result err ≡ false
    → s.output ≡ some q
    → length q < 100
    → MaySend s.status (is_initialize_response result err)
    → send_response s id result err now ≡ (
      record s { output = some (q ++ response_message s id result err ∷ []); last_activity = now },
      queued,
    )
unfolding send_response
send_response-queued s id result err now q h o room may = ground arith

-- In every other case the session is left as it was, and nothing is sent.
pub send_response-dropped :
    (s : Session) (id : RequestId) (result : Answer) (err : Option GoError) (now : ℕ)
    → (send_response s id result err now).1 ≢ queued
    → (send_response s id result err now).0 ≡ s
unfolding send_response
send_response-dropped s id result err now h = ground arith

pub MaySend-of_queued :
    (s : Session) (id : RequestId) (result : Answer) (err : Option GoError) (now : ℕ)
    → (send_response s id result err now).1 ≡ queued
    → (q : List Message) × (s.output ≡ some q)
      × (length q < 100)
      × (is_nothing result err ≡ false)
      × MaySend s.status (is_initialize_response result err)
unfolding send_response
MaySend-of_queued s id result err now h = ground arith

-- The session takes a response with content, and its channel is open with room.
abbrev pub CanSend : Session → Answer → Option GoError → Type 0
CanSend s result err =
    (q : List Message) × (s.output ≡ some q)
    × (length q < 100)
    × (is_nothing result err ≡ false)
    × MaySend s.status (is_initialize_response result err)

-- A response is sent exactly where it has content, the channel is open with room for it, and the
-- session is connected or connecting or the response is the result of an `initialize`. Otherwise
-- the session is left as it was.
pub send_response-CanSend :
    (s : Session) (id : RequestId) (result : Answer) (err : Option GoError) (now : ℕ)
    → (((send_response s id result err now).1 ≡ queued) ↔ CanSend s result err)
      × ((send_response s id result err now).1 ≢ queued → (send_response s id result err now).0 ≡ s)
send_response-CanSend s id result err now = (
  (
    MaySend-of_queued s id result err now,
    λ c. ap (λ r. r.1) (send_response-queued s id result err now c.0 c.3 c.1 c.2 c.4),
  ),
  send_response-dropped s id result err now,
)

-- An error answer is dropped, and the session left as it was, where the session is neither
-- connected nor connecting: also the error of an `initialize` that failed.
pub send_response_error_lost :
    (s : Session) (id : RequestId) (result : Answer) (e : GoError) (now : ℕ)
    → s.status ≢ connected
    → s.status ≢ connecting
    → s.output ≢ none
    → send_response s id result (some e) now ≡ (s, not_sendable)
unfolding send_response
send_response_error_lost s id result e now h k o = ground arith
