-- ===== src/Session/Send.antt =====
-- What a session sends, and how it settles responses: `SendNotification`, `SendRequest`,
-- `SendResponse`, `SendA2AStreamEvent` and `ProcessResponse` of shared/session.go and
-- shared/requestManager.go.
use gate4ai.Dict
use gate4ai.Jsonrpc.{
  RequestId, IdValue, GoError, rpc, RpcError, Encoded, encoded, unencodable, Answer, nil, value,
  Message, id_string, internal_code, error_text,
}
use gate4ai.Prelude.{
  ℕ, Bool, true, false, not, ◌&&◌, ◌||◌, Option, none, some, String, ◌<>◌, if◌then◌else◌, is_none,
}
use gate4ai.Requests.{Callback, register_request, find_callback}
use gate4ai.Session.{
  Session, is_connected, is_connecting, update_last_activity, next_message_id, push,
}

-- How a call that may wait for room ends.
pub data Sent : Type 0 where
  sent blocks failed : Sent

unfoldable pub outgoing : Session → RequestId → Option String → Option String → Message
outgoing s id method params = record {
  id = id;
  method = method;
  params = params;
  result = none;
  error = none;
  processed = false;
  session = some s.id;
}

sent_or_blocks : Session → Option Session → Session × Sent
sent_or_blocks s none = (s, blocks)
sent_or_blocks s (some s') = (s', sent)

unfoldable pub send_call : Session → RequestId → Option String → Option String → ℕ → Session × Sent
unfolding outgoing sent_or_blocks push
send_call s id method params now =
    let t = update_last_activity s now in sent_or_blocks t (push t (outgoing s id method params))

unfoldable pub send_notification : Session → String → Option Encoded → ℕ → Session × Sent
unfolding send_call
send_notification s method (some (unencodable e)) now = (s, failed)
send_notification s method (some (encoded raw)) now = send_call s none (some method) (some raw) now
send_notification s method none now = send_call s none (some method) none now

unfoldable pub register_and_send :
    Session → IdValue → String → Option String → Option Callback → ℕ → Session × Sent
unfolding send_call
register_and_send s id method params callback now =
    send_call (record s { requests = register_request s.requests (some id) callback now }) (some id)
      (some method) params now

-- `SendRequest`, with the identifier that it drew. It warns of a session that is not connected,
-- and sends all the same.
unfoldable pub send_request :
    Session → String → Option Encoded → Option Callback → ℕ → Session × IdValue × Sent
unfolding next_message_id register_and_send
send_request s method params callback now =
    let (t, id) = next_message_id s in
    elim params [
      | some (unencodable e) ↦ (t, id, failed)
      | some (encoded raw) ↦
          let (u, how) = register_and_send t id method (some raw) callback now in (u, id, how)
      | none ↦ let (u, how) = register_and_send t id method none callback now in (u, id, how)
    ]

-- How `SendResponse` and `sendMessageToOutput` end.
pub data Delivery : Type 0 where
  queued nothing_to_send session_closed not_sendable channel_full : Delivery

to_rpc_error : GoError → RpcError
to_rpc_error (rpc e) = e
to_rpc_error e = record { code = internal_code; message = error_text e; payload = none }

unfoldable pub reply : Session → RequestId → Option String → Option RpcError → Message
reply s id result error = record {
  id = id;
  method = none;
  params = none;
  result = result;
  error = error;
  processed = false;
  session = some s.id;
}

-- The message that `SendResponse` builds.
unfoldable pub response_message : Session → RequestId → Answer → Option GoError → Message
unfolding to_rpc_error reply
response_message s id result (some err) = reply s id none (some (to_rpc_error err))
response_message s id (value _ (encoded raw)) none = reply s id (some raw) none
response_message s id (value _ (unencodable e)) none = reply s id none (
    some (record {
      code = internal_code;
      message = "Failed to marshal result: " <> e;
      payload = none;
    }))
response_message s id nil none = reply s id none none

-- `result` is set to nil where there is an error.
abbrev pub is_initialize_response : Answer → Option GoError → Bool
is_initialize_response (value b _) none = b
is_initialize_response _ _ = false

abbrev pub is_nothing : Answer → Option GoError → Bool
is_nothing nil none = true
is_nothing _ _ = false

-- The `select` with a default branch: a full channel drops the message.
unfoldable pub offer : Session → Message → ℕ → Session × Delivery
unfolding push
offer s m now = elim (push s m) [
  | none ↦ (s, channel_full)
  | some s' ↦ (update_last_activity s' now, queued)
]

unfoldable pub send_response :
    Session → RequestId → Answer → Option GoError → ℕ → Session × Delivery
unfolding offer
send_response s id result err now =
    if is_nothing result err
    then (s, nothing_to_send)
    else if is_none s.output
    then (s, session_closed)
    else if not (is_connected s.status)
        && not (is_connecting s.status)
        && not (is_initialize_response result err)
    then (s, not_sendable)
    else offer s (response_message s id result err) now

-- `sendMessageToOutput`. Its local test for an initialize response is always false.
unfoldable pub send_message_to_output : Session → Message → ℕ → Session × Delivery
unfolding offer
send_message_to_output s m now =
    if is_none s.output
    then (s, session_closed)
    else if is_connected s.status || (is_connecting s.status && is_none m.id)
    then offer s m now
    else (s, not_sendable)

-- A stream event: the JSON of its status or artifact, an error, or nothing in it.
pub data StreamEvent : Type 0 where
  content : Encoded → StreamEvent
  stream_error : GoError → StreamEvent
  no_content : StreamEvent

unfoldable pub internal_error : GoError → RpcError
internal_error e = record { code = internal_code; message = error_text e; payload = none }

unfoldable pub send_a2a_stream_event : Session → StreamEvent → ℕ → Session × Delivery
unfolding send_message_to_output reply internal_error
send_a2a_stream_event s (content (encoded raw)) now =
    send_message_to_output s (reply s none (some raw) none) now
send_a2a_stream_event s (content (unencodable e)) now = (s, nothing_to_send)
send_a2a_stream_event s (stream_error e) now =
    send_message_to_output s (reply s none none (some (internal_error e))) now
send_a2a_stream_event s no_content now = (s, nothing_to_send)

-- `ProcessResponse` of the session's request manager where nothing comes between its steps, which are
-- in Session.Responding. `run` is what calling a callback does; the
-- entry is deleted after the call.
unfoldable pub invoke :
    (Callback → Message → Session → Session) → Option Callback → Session → Message → Session × Bool
invoke run none s m = (s, false)
invoke run (some c) s m =
    let t = run c m s in (record t { requests = Dict.remove t.requests (id_string m.id) }, true)

unfoldable pub process_by_id :
    (Callback → Message → Session → Session) → RequestId → Session → Message → Session × Bool
unfolding invoke
process_by_id run none s m = (s, false)
process_by_id run (some id) s m = invoke run (find_callback s.requests (some id)) s m

unfoldable pub process_response :
    (Callback → Message → Session → Session) → Session → Message → Session × Bool
unfolding process_by_id
process_response run s m = process_by_id run m.id s m
