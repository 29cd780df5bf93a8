-- ===== src/Handshake/Examples.antt =====
-- The theorems of the handshake at concrete sessions.
use gate4ai.Prelude.{
  ◌≡◌, ◌⊎◌, inl, inr, refl, false, Option, none, some, [], ◌∷◌, String, ◌==◌, if◌then◌else◌,
}
use gate4ai.Dict
use gate4ai.Handshake.{
  base_handlers, handle_initialize, handle_notification_initialized, base_handlers,
  handle_initialize, handle_notification_initialized, InitializeParams, Client, base_input,
  negotiate,
}
use gate4ai.Handshake.Negotiation.{IsSupported, negotiate-IsSupported}
use gate4ai.Handshake.Connection.{IsNegotiated, process_all, process_all-IsNegotiated}
use gate4ai.Input.{
  add_capability, new_input, get_handler, is_notification_method, finish, add_capability, new_input,
  get_handler, is_notification_method, finish, process,
}
use gate4ai.Jsonrpc.{is_empty, Encoded, encoded, Message, IdValue, number, is_empty}
use gate4ai.Requests.{Callback}
use gate4ai.Session.{Session, new_session, connected, push}
use gate4ai.Session.Send.{send_response, response_message, offer}

-- A client that asks for the older version, in a decoder that knows one text.
abbrev unmarshal : String → InitializeParams ⊎ String
unmarshal raw =
    if raw == "{}"
    then inl (record { protocol_version = "2024-11-05"; client_info = "ide"; capabilities = "{}" })
    else inr "unexpected end of JSON input"

abbrev answer : String → Encoded
answer version = encoded version

abbrev keep : Callback → Message → Session → Session
keep c m s = s

abbrev nobody : Client
nobody = record { info = ""; capabilities = none }

abbrev call : Option IdValue → String → Option String → Message
call id method params = record {
  id = id;
  method = some method;
  params = params;
  result = none;
  error = none;
  processed = false;
  session = none;
}

abbrev hello : Message
hello = call (some (number 1)) "initialize" (some "{}")

abbrev initialized : Message
initialized = call none "notifications/initialized" none

abbrev fresh : Session
fresh = new_session "r" "s" 0

abbrev shook : Session
shook = (process_all unmarshal answer keep ((hello, 1) ∷ (initialized, 2) ∷ []) fresh nobody).0

-- The whole handshake connects the session.
handshake_connects : (shook.status ≡ connected) × (shook.negotiated_version ≡ "2024-11-05")
unfolding process_all base_input base_handlers new_session add_capability new_input process
    handle_initialize handle_notification_initialized get_handler Dict.put Dict.get send_response
    negotiate is_empty is_notification_method response_message finish push offer
handshake_connects = (refl, refl)

negotiate-IsSupported_example :
    IsSupported (negotiate "2023-01-01")
    × ((IsSupported "2023-01-01" × (negotiate "2023-01-01" ≡ "2023-01-01"))
        ⊎ ((¬ IsSupported "2023-01-01") × (negotiate "2023-01-01" ≡ "2025-03-26")))
negotiate-IsSupported_example = negotiate-IsSupported "2023-01-01"

process_all-IsNegotiated_example : IsNegotiated shook.status shook.negotiated_version
process_all-IsNegotiated_example =
    process_all-IsNegotiated unmarshal answer keep (λ c m s h. h)
      ((hello, 1) ∷ (initialized, 2) ∷ []) "r" "s" 0 nobody
