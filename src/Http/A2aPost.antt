-- ===== src/Http/A2aPost.antt =====
-- `handleA2APOST` of server/transport/handle-a2a-POST.go. `session_of` reads the `sessionId` of the
-- parameters, `marshal` writes a message as JSON, and `is_final` says whether a result is a final
-- status event.
pub mod Released
pub mod Wire
use gate4ai.Prelude.{
  ℕ, ◌+◌, ◌-◌, ◌/◌, ◌<◌, Bool, true, false, not, ◌&&◌, ◌||◌, Option, none, some, List, [], ◌∷◌,
  String, ◌<>◌, ◌==◌, starts_with, arith, if◌then◌else◌,
}
use gate4ai.Auth.{Granted, granted, refused}
use gate4ai.Http.{
  HttpReply, text_reply, Body, unreadable, invalid, messages, send_error, Arrival, message,
  nil_message, closed, timer, disconnects,
}
use gate4ai.Input.{Input, put}
use gate4ai.Jsonrpc.{
  RequestId, GoError, plain, error_text, new_jsonrpc_error, RpcError, Encoded, encoded, unencodable,
  Message, parse_error_code, invalid_request_code, method_not_found_code, internal_code,
}
use gate4ai.Requests.{Callback}
use gate4ai.Session.{Session, connected, disconnected, set_status, acquire_output, release_output}
use gate4ai.Session.Send.{process_response}

-- What the handler writes: an error or another reply, a result, an event of a stream.
pub data A2aItem : Type 0 where
  reply : HttpReply → A2aItem
  success : RequestId → Option String → A2aItem
  event : ℕ → String → A2aItem

-- The items written, and whether the handler has returned, panicked, or still waits.
pub data A2aEnd : Type 0 where
  returned panicked waiting : A2aEnd

-- Before there is a session: an end, or a message with its method.
pub data Guarded : Type 0 where
  stops : HttpReply → Guarded
  crashes : Guarded
  goes_on : Message → String → Guarded

guard_method : Message → Option String → Guarded
guard_method m none = stops (send_error m.id invalid_request_code "Method is required" none)
guard_method m (some method) =
    if starts_with method "tasks/"
    then goes_on m method
    else stops (
        send_error m.id method_not_found_code
          ("Method '" <> method <> "' not supported on A2A endpoint") none)

unfoldable pub guard_body : Body → Guarded
unfolding guard_method
guard_body unreadable = stops (text_reply 400 "Failed to read request body")
guard_body (invalid e) = stops (send_error none parse_error_code "Invalid JSON-RPC request" none)
guard_body (messages []) = stops (send_error none parse_error_code "Invalid JSON-RPC request" none)
guard_body (messages (none ∷ [])) = crashes
guard_body (messages (some m ∷ [])) = guard_method m m.method
guard_body (messages (m ∷ n ∷ more)) =
    stops (send_error none invalid_request_code "A2A endpoint does not support batch requests" none)

-- The identifier of the session that the parameters of a send name: a panic where they are
-- missing, `inr` where they cannot be read.
pub data SessionId : Type 0 where
  session_id : String → SessionId
  unreadable_params : SessionId
  nil_params : SessionId

text_of : Option (Option String) → SessionId
text_of none = unreadable_params
text_of (some none) = session_id ""
text_of (some (some id)) = session_id id

params_session : (String → Option (Option String)) → Option String → SessionId
unfolding text_of
params_session session_of none = nil_params
params_session session_of (some raw) = text_of (session_of raw)

unfoldable pub named_session :
    (String → Option (Option String)) → String → Option String → SessionId
unfolding params_session
named_session session_of method params =
    if method == "tasks/send" || method == "tasks/sendSubscribe"
    then params_session session_of params
    else session_id ""

module _ (marshal : Message → Encoded) (is_final : String → Bool)
    (run : Callback → Message → Session → Session) where
  cleanup : Session → Message → String → Session
  cleanup s m reason =
      (process_response run s (record {
        id = m.id;
        method = none;
        params = none;
        result = none;
        error = some (new_jsonrpc_error (plain reason));
        processed = false;
        session = none;
      })).0

  error_item : RequestId → RpcError → A2aItem
  error_item id e = reply (send_error id e.code e.message e.payload)

  answer_item : Message → Option RpcError → Option String → A2aItem
  unfolding error_item
  answer_item m (some e) result = error_item m.id e
  answer_item m none result = success m.id result

  -- The answer to a request that is no stream. A closed channel gives a nil message, as a nil one
  -- does, and the handler panics.
  unfoldable pub single_answer : Session → Message → List Arrival → Session × List A2aItem × A2aEnd
  unfolding answer_item cleanup
  single_answer s m [] = (s, [], waiting)
  single_answer s m (message r ∷ more) = (s, answer_item m r.error r.result ∷ [], returned)
  single_answer s m (nil_message ∷ more) = (s, [], panicked)
  single_answer s m (closed ∷ more) = (s, [], panicked)
  single_answer s m (timer ∷ more) = (
    cleanup s m "timeout",
    reply (send_error m.id internal_code "Timeout waiting for response" none) ∷ [],
    returned,
  )
  single_answer s m (disconnects ∷ more) = (cleanup s m "client disconnected", [], returned)

  abbrev after_item : A2aItem → Session × List A2aItem × A2aEnd → Session × List A2aItem × A2aEnd
  after_item item (s, items, end) = (s, item ∷ items, end)

  -- The loop of `tasks/sendSubscribe`. A message with neither error nor result is written, and
  -- then the handler panics at its nil result.
  unfoldable pub stream_answers :
      Session → Message → ℕ → List Arrival → Session × List A2aItem × A2aEnd
  unfolding error_item cleanup
  stream_answers s m n [] = (s, [], waiting)
  stream_answers s m n (message r ∷ more) =
      let rest = stream_answers s m (n + 1) more in
      elim r.error [
        | some e ↦ (s, error_item m.id e ∷ [], returned)
        | none ↦ elim (marshal r) [
          | unencodable e ↦ (
            s,
            reply (send_error m.id internal_code "Failed to marshal A2A SSE event" none) ∷ [],
            returned,
          )
          | encoded text ↦ after_item (event (n + 1) text) (elim r.result [
            | none ↦ (s, [], panicked)
            | some raw ↦ if is_final raw then (s, [], returned) else rest
          ])
        ]
      ]
  stream_answers s m n (nil_message ∷ more) = (s, [], panicked)
  stream_answers s m n (closed ∷ more) = (s, [], returned)
  stream_answers s m n (timer ∷ more) = (
    cleanup s m "timeout",
    reply (send_error m.id internal_code "Timeout waiting for initial task response" none) ∷ [],
    returned,
  )
  stream_answers s m n (disconnects ∷ more) = (cleanup s m "client disconnected", [], returned)

  abbrev is_streaming : String → Bool
  is_streaming method = method == "tasks/sendSubscribe"

  answered : Session → Message → String → List Arrival → Session × List A2aItem × A2aEnd
  unfolding single_answer stream_answers
  answered s m method arrivals =
      if is_streaming method then stream_answers s m 0 arrivals else single_answer s m arrivals

  -- The deferred calls: the channel is released, then the status set.
  released : Session × List A2aItem × A2aEnd → Session × List A2aItem × A2aEnd
  released (s, items, waiting) = (s, items, waiting)
  released (s, items, returned) = (set_status (release_output s) disconnected, items, returned)
  released (s, items, panicked) = (set_status (release_output s) disconnected, items, panicked)

  with_output : Session × Bool → Message → String → List Arrival → Session × List A2aItem × A2aEnd
  unfolding released answered
  with_output (s, false) m method arrivals = (
    set_status s disconnected,
    reply (send_error m.id internal_code "Failed to acquire output channel" none) ∷ [],
    returned,
  )
  with_output (s, true) m method arrivals = released (answered s m method arrivals)

  module _ {W : Type 0} where
    after_put :
        Input W × Session × W × Option GoError
        → Message
        → String
        → List Arrival
        → Input W × Session × W × List A2aItem × A2aEnd
    unfolding with_output
    after_put (i, s, w, some e) m method arrivals = (
      i,
      set_status s disconnected,
      w,
      reply (
            send_error m.id internal_code "Internal server error processing request"
              (some (error_text e)))
          ∷ [],
      returned,
    )
    after_put (i, s, w, none) m method arrivals =
        let (t, items, end) = with_output (acquire_output s) m method arrivals in
        (i, t, w, items, end)

    -- From the session on. `accepts` says whether the client accepts a stream of events.
    unfoldable pub a2a_in_session :
        Message
        → String
        → Bool
        → List Arrival
        → Input W
        → Session
        → W
        → ℕ
        → Input W × Session × W × List A2aItem × A2aEnd
    unfolding after_put
    a2a_in_session m method accepts arrivals i s w now =
        let t = set_status s connected in
        let m' : Message = record m { session = some s.id } in
        let normal = after_put (put i m' t w now) m method arrivals in
        if is_streaming method && not accepts
        then (
          i,
          set_status t disconnected,
          w,
          reply (
                send_error m.id invalid_request_code
                  "tasks/sendSubscribe requires 'Accept: text/event-stream' header" none)
              ∷ [],
          returned,
        )
        else normal

    in_session :
        Granted Session
        → Message
        → String
        → Bool
        → List Arrival
        → Input W
        → W
        → ℕ
        → Input W × Option Session × W × List A2aItem × A2aEnd
    unfolding a2a_in_session
    in_session (refused why) m method accepts arrivals i w now =
        (i, none, w, reply (text_reply 500 "Session creation failed") ∷ [], returned)
    in_session (granted s) m method accepts arrivals i w now =
        let (j, t, v, items, end) = a2a_in_session m method accepts arrivals i s w now in
        (j, some t, v, items, end)

    find_session :
        SessionId
        → (String → Granted Session)
        → Message
        → String
        → Bool
        → List Arrival
        → Input W
        → W
        → ℕ
        → Input W × Option Session × W × List A2aItem × A2aEnd
    unfolding in_session
    find_session nil_params get_session m method accepts arrivals i w now =
        (i, none, w, [], panicked)
    find_session unreadable_params get_session m method accepts arrivals i w now =
        (i, none, w, reply (text_reply 500 "Failed to unmarshal tasks/send params") ∷ [], returned)
    find_session (session_id id) get_session m method accepts arrivals i w now =
        in_session (get_session id) m method accepts arrivals i w now

    unguarded :
        Guarded
        → (String → Option (Option String))
        → (String → Granted Session)
        → Bool
        → List Arrival
        → Input W
        → W
        → ℕ
        → Input W × Option Session × W × List A2aItem × A2aEnd
    unfolding find_session named_session
    unguarded (stops r) session_of get_session accepts arrivals i w now =
        (i, none, w, reply r ∷ [], returned)
    unguarded crashes session_of get_session accepts arrivals i w now = (i, none, w, [], panicked)
    unguarded (goes_on m method) session_of get_session accepts arrivals i w now =
        find_session (named_session session_of method m.params) get_session m method accepts
          arrivals i w now

    -- `handleA2APOST`, with `getSession` at the session's identifier.
    unfoldable pub handle_a2a_post :
        Body
        → (String → Option (Option String))
        → (String → Granted Session)
        → Bool
        → List Arrival
        → Input W
        → W
        → ℕ
        → Input W × Option Session × W × List A2aItem × A2aEnd
    unfolding unguarded guard_body
    handle_a2a_post body session_of get_session accepts arrivals i w now =
        unguarded (guard_body body) session_of get_session accepts arrivals i w now
