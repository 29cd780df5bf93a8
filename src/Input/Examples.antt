-- ===== src/Input/Examples.antt =====
-- A concrete input processor, and messages through it.
use gate4ai.Prelude.{ℕ, ◌+◌, ◌≡◌, ◌⊎◌, refl, false, none, some, [], ◌∷◌, String, ltb, if◌then◌else◌}
use gate4ai.Dict
use gate4ai.Jsonrpc.{RequestId, Message, value, encoded, plain, number, is_empty}
use gate4ai.Requests.{Callback}
use gate4ai.Session.{Session, new_session, connected, set_status}
use gate4ai.Input.{
  Input, Handler, Validator, returns, panics, new_input, start, add_capability, add_validators,
  process, get_handler, is_notification_method,
}
use gate4ai.Input.Dispatch.{process_request-CanSend, reply_of, IsSent}
use gate4ai.Session.Sending.{CanSend}

abbrev ready : Session
ready = set_status (new_session "r" "s1" 5) connected

abbrev call : RequestId → String → Message
call id method = record {
  id = id;
  method = some method;
  params = none;
  result = none;
  error = none;
  processed = false;
  session = some "s1";
}

-- A handler that counts its calls, and one that panics.
abbrev ping_handler : Handler ℕ
ping_handler m s n = (s, n + 1, returns (value false (encoded "{}")) none)

abbrev boom_handler : Handler ℕ
boom_handler m s n = (s, n, panics "boom")

abbrev only_first : Validator ℕ
only_first m n = (if ltb n 1 then none else some (plain "too many"), n + 1)

abbrev inputs : Input ℕ
inputs = start (add_capability new_input (("ping", ping_handler) ∷ ("boom", boom_handler) ∷ []))

abbrev keep : Callback → Message → Session → Session
keep c m s = s

abbrev guarded : Input ℕ
guarded = add_validators inputs (only_first ∷ [])

process_request-CanSend_example :
    let m : Message = call (some (number 4)) "boom" in
    let a = reply_of (panics "boom") in
    let (after, world, outcome) = process keep inputs m ready 0 9 in
    (world ≡ 0)
    × ((CanSend ready a.0 a.1 × IsSent ready after m.id a.0 a.1 9)
        ⊎ ((¬ CanSend ready a.0 a.1) × (after ≡ ready)))
unfolding get_handler start add_capability new_input is_empty is_notification_method Dict.get
    Dict.put
process_request-CanSend_example =
    process_request-CanSend keep inputs (call (some (number 4)) "boom") ready 0 9 "boom"
      boom_handler refl refl refl refl
