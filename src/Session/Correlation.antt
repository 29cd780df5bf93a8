-- ===== src/Session/Correlation.antt =====
-- A request and its response: `SendRequest` of shared/session.go and `ProcessResponse` of
-- shared/requestManager.go.
use gate4ai.Dict
use gate4ai.Jsonrpc.{RequestId, IdValue, Encoded, encoded, unencodable, Message, id_string}
use gate4ai.Prelude.{
  ◌⊎◌, inr, ℕ, ◌≡◌, ◌≢◌, refl, true, false, Option, none, some, String, arith, eq_iff, str_refl,
}
use gate4ai.Requests.{
  find_callback-remove, find_callback-register_request, Callback, RequestManager, find_callback,
  register_request,
}
use gate4ai.Session.Send.{register_and_send, send_call, send_request, process_response, failed}
use gate4ai.Session.{Session, next_message_id}

requests-send_call :
    (s : Session) (id : RequestId) (method params : Option String) (now : ℕ)
    → (send_call s id method params now).0.requests ≡ s.requests
unfolding send_call
requests-send_call s id method params now = ground arith

-- What a registration does to the table.
abbrev pub Waits : RequestManager → RequestManager → RequestId → Option Callback → Type 0
Waits before after id callback =
    (find_callback after id ≡ callback)
    × ((other : RequestId)
        → id_string other ≢ id_string id
        → find_callback after other ≡ find_callback before other)

register_request-Waits :
    (rm : RequestManager) (id : RequestId) (callback : Option Callback) (now : ℕ)
    → Waits rm (register_request rm id callback now) id callback
register_request-Waits rm id callback now = (
  ground (arith, find_callback-register_request rm id id callback now, str_refl (id_string id)),
  λ other ne. ground (
    arith,
    find_callback-register_request rm id other callback now,
    eq_iff (id_string id) (id_string other),
  ),
)

register_and_send-Waits :
    (s : Session) (id : IdValue) (method : String) (params : Option String)
    (callback : Option Callback) (now : ℕ)
    → Waits s.requests
        (register_and_send s id method params callback now).0.requests
        (some id)
        callback
unfolding register_and_send
register_and_send-Waits s id method params callback now =
    rw requests-send_call (register_request-Waits s.requests (some id) callback now)

-- A request that went out, or that waits for room, is registered under the identifier that it
-- drew, and no other entry has changed.
pub send_request-Waits :
    (s : Session) (method : String) (params : Option Encoded) (callback : Option Callback) (now : ℕ)
    → (send_request s method params callback now).2 ≢ failed
    → Waits s.requests
        (send_request s method params callback now).0.requests
        (some (send_request s method params callback now).1)
        callback
unfolding send_request
send_request-Waits s method (some (unencodable e)) callback now h = absurd (h refl)
send_request-Waits s method (some (encoded raw)) callback now h =
    register_and_send-Waits (next_message_id s).0 (next_message_id s).1 method (some raw) callback
      now
send_request-Waits s method none callback now h =
    register_and_send-Waits (next_message_id s).0 (next_message_id s).1 method none callback now

process_response_found :
    (run : Callback → Message → Session → Session) (s : Session) (m : Message) (id : IdValue)
    (c : Callback)
    → m.id ≡ some id
    → find_callback s.requests (some id) ≡ some c
    → process_response run s m ≡ (
      record (run c m s) { requests = Dict.remove (run c m s).requests (id_string (some id)) },
      true,
    )
unfolding process_response
process_response_found run s m id c h f = rw (h, process_response) (rw (f, process_response))

-- A response without an identifier, or with one that nothing waits for, changes nothing.
pub process_response_unknown :
    (run : Callback → Message → Session → Session) (s : Session) (m : Message)
    → (m.id ≡ none) ⊎ (find_callback s.requests m.id ≡ none)
    → process_response run s m ≡ (s, false)
unfolding process_response
process_response_unknown run s m h = ground arith

-- A response runs the callback that waits under its identifier, once: the entry is gone
-- afterwards, whatever the callback does, and a second response with the identifier finds nothing.
pub process_response_once :
    (run : Callback → Message → Session → Session) (s : Session) (m again : Message) (id : IdValue)
    (c : Callback)
    → m.id ≡ some id
    → again.id ≡ some id
    → find_callback s.requests (some id) ≡ some c
    → let after = record (run c m s) {
      requests = Dict.remove (run c m s).requests (id_string (some id));
    } in
      (process_response run s m ≡ (after, true))
      × (process_response run after again ≡ (after, false))
process_response_once run s m again id c h h' f = (
  process_response_found run s m id c h f,
  process_response_unknown run _ again (
      inr (
        rw h' (
          ground (
            arith,
            find_callback-remove (run c m s).requests (some id) (some id),
            str_refl (id_string (some id)),
          )))),
)
