-- ===== src/Session/Bounds.antt =====
-- Operations of the session as one step function, and the invariant of the output channel of
-- shared/session.go: what it holds at most, and who may hold a channel that is closed.
use gate4ai.Jsonrpc.{RequestId, IdValue, Encoded, encoded, unencodable, Answer, GoError, Message}
use gate4ai.Prelude.{
  ℕ, ◌≤◌, ◌≡◌, false, Option, none, some, List, [], ◌∷◌, String, arith, length, length-append,
}
use gate4ai.Requests.{Callback, register_request}
use gate4ai.Session.Send.{
  StreamEvent, content, stream_error, no_content, send_notification, send_request, send_response,
  send_a2a_stream_event, send_call, offer, send_message_to_output, response_message, reply,
  internal_error, register_and_send,
}
use gate4ai.Session.{
  Session, Status, new_session, close, acquire_output, release_output, receive, push, set_status,
  next_message_id,
}

pub data Op : Type 0 where
  notifies : String → Option Encoded → Op
  requests : String → Option Encoded → Option Callback → Op
  responds : RequestId → Answer → Option GoError → Op
  streams : StreamEvent → Op
  receives acquires releases closes : Op
  sets : Status → Op

abbrev rest_or : Session → Option (Message × Session) → Session
rest_or s none = s
rest_or s (some (m, t)) = t

-- A call at a time. A sender that has to wait for room has done all but the send.
unfoldable pub step : Session → ℕ × Op → Session
step s (now, notifies method params) = (send_notification s method params now).0
step s (now, requests method params callback) = (send_request s method params callback now).0
step s (now, responds id result err) = (send_response s id result err now).0
step s (now, streams event) = (send_a2a_stream_event s event now).0
step s (now, receives) = rest_or s (receive s)
step s (now, acquires) = (acquire_output s).0
step s (now, releases) = release_output s
step s (now, closes) = close s
step s (now, sets status) = set_status s status

unfoldable pub run : Session → List (ℕ × Op) → Session
run s [] = s
run s (o ∷ os) = run (step s o) os

abbrev pub buffered : Option (List Message) → ℕ
buffered none = 0
buffered (some q) = length q

abbrev AllSent : (Session → Type 0) → Option Session → Type 0
AllSent P none = Unit {0}
AllSent P (some s) = P s

pub record IsValid (s : Session) : Type 0 where
  pub bounded : buffered s.output ≤ 100
  pub closed_is_free : s.output ≡ none → s.is_output_acquired ≡ false

-- The one fact about the channel: a message is added where there is room.
push-IsValid : (s : Session) (m : Message) → IsValid s → AllSent IsValid (push s m)
unfolding push
push-IsValid s m v = grind (arith, length-append)

send_call-IsValid :
    (s : Session) (id : RequestId) (method params : Option String) (now : ℕ)
    → IsValid s
    → IsValid (send_call s id method params now).0
unfolding send_call
send_call-IsValid s id method params now v = grind (arith, length-append)

offer-IsValid : (s : Session) (m : Message) (now : ℕ) → IsValid s → IsValid (offer s m now).0
unfolding offer
offer-IsValid s m now v = grind (arith, length-append)

notifies-IsValid :
    (s : Session) (method : String) (params : Option Encoded) (now : ℕ)
    → IsValid s
    → IsValid (send_notification s method params now).0
unfolding send_notification
notifies-IsValid s method (some (unencodable e)) now v = v
notifies-IsValid s method (some (encoded raw)) now v =
    send_call-IsValid s none (some method) (some raw) now v
notifies-IsValid s method none now v = send_call-IsValid s none (some method) none now v

register_and_send-IsValid :
    (s : Session) (id : IdValue) (method : String) (params : Option String)
    (callback : Option Callback) (now : ℕ)
    → IsValid s
    → IsValid (register_and_send s id method params callback now).0
unfolding register_and_send
register_and_send-IsValid s id method params callback now v =
    send_call-IsValid (record s { requests = register_request s.requests (some id) callback now })
      (some id) (some method) params now
      (record { bounded = v.bounded; closed_is_free = v.closed_is_free })

next_message_id-IsValid : (s : Session) → IsValid s → IsValid (next_message_id s).0
unfolding next_message_id
next_message_id-IsValid s v = record { bounded = v.bounded; closed_is_free = v.closed_is_free }

requests-IsValid :
    (s : Session) (method : String) (params : Option Encoded) (callback : Option Callback) (now : ℕ)
    → IsValid s
    → IsValid (send_request s method params callback now).0
unfolding send_request
requests-IsValid s method (some (unencodable e)) callback now v = next_message_id-IsValid s v
requests-IsValid s method (some (encoded raw)) callback now v =
    register_and_send-IsValid (next_message_id s).0 (next_message_id s).1 method (some raw) callback
      now (next_message_id-IsValid s v)
requests-IsValid s method none callback now v =
    register_and_send-IsValid (next_message_id s).0 (next_message_id s).1 method none callback now
      (next_message_id-IsValid s v)

responds-IsValid :
    (s : Session) (id : RequestId) (result : Answer) (err : Option GoError) (now : ℕ)
    → IsValid s
    → IsValid (send_response s id result err now).0
unfolding send_response
responds-IsValid s id result err now v =
    ground (arith, offer-IsValid s (response_message s id result err) now v)

message_out-IsValid :
    (s : Session) (m : Message) (now : ℕ) → IsValid s → IsValid (send_message_to_output s m now).0
unfolding send_message_to_output
message_out-IsValid s m now v = ground (arith, offer-IsValid s m now v)

streams-IsValid :
    (s : Session) (event : StreamEvent) (now : ℕ)
    → IsValid s
    → IsValid (send_a2a_stream_event s event now).0
unfolding send_a2a_stream_event
streams-IsValid s (content (encoded raw)) now v =
    message_out-IsValid s (reply s none (some raw) none) now v
streams-IsValid s (content (unencodable e)) now v = v
streams-IsValid s (stream_error e) now v =
    message_out-IsValid s (reply s none none (some (internal_error e))) now v
streams-IsValid s no_content now v = v

receives-IsValid : (s : Session) → IsValid s → IsValid (rest_or s (receive s))
unfolding receive
receives-IsValid s v = ground arith

-- Every operation, failing or not, keeps the channel within its capacity of 100 messages, and a
-- closed session free of a holder of its channel.
pub step-IsValid : (s : Session) (now : ℕ) (o : Op) → IsValid s → IsValid (step s (now, o))
unfolding step acquire_output release_output close
step-IsValid s now (notifies method params) v = notifies-IsValid s method params now v
step-IsValid s now (requests method params callback) v =
    requests-IsValid s method params callback now v
step-IsValid s now (responds id result err) v = responds-IsValid s id result err now v
step-IsValid s now (streams event) v = streams-IsValid s event now v
step-IsValid s now receives v = receives-IsValid s v
step-IsValid s now acquires v = ground arith
step-IsValid s now releases v = ground arith
step-IsValid s now closes v = ground arith
step-IsValid s now (sets status) v = record {
  bounded = v.bounded;
  closed_is_free = v.closed_is_free;
}

run-IsValid : (s : Session) (os : List (ℕ × Op)) → IsValid s → IsValid (run s os)
unfolding run
run-IsValid s [] v = v
run-IsValid s ((now, o) ∷ os) v = run-IsValid (step s (now, o)) os (step-IsValid s now o v)

new_session-IsValid : (random_id id : String) (now : ℕ) → IsValid (new_session random_id id now)
unfolding new_session
new_session-IsValid random_id id now = record {
  bounded = omega arith;
  closed_is_free = λ e. absurd (cc);
}

-- After any sequence of operations on a new session its output channel holds at most 100 messages,
-- and once the session is closed nobody holds the channel.
pub run-new_session-IsValid :
    (random_id id : String) (created : ℕ) (os : List (ℕ × Op))
    → IsValid (run (new_session random_id id created) os)
run-new_session-IsValid random_id id created os =
    run-IsValid _ os (new_session-IsValid random_id id created)
