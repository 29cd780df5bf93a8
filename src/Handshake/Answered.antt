-- ===== src/Handshake/Answered.antt =====
-- Which answers to `initialize` of base.go reach the client: the handler's end with SendResponse of
-- shared/session.go.
use gate4ai.Dict
use gate4ai.Prelude.{
  ℕ, ◌<◌, ◌≡◌, ◌≢◌, ◌⊎◌, inl, inr, refl, ap, ◌∙◌, true, false, none, some, List, [], ◌∷◌, ◌++◌,
  String, ◌<>◌, length,
}
use gate4ai.Handshake.{
  invalid_params_code, returns, InitializeParams, Client, negotiate, base_handlers, base_input,
  handle_initialize, initialize_with, initialize_params, rewrapped,
}
use gate4ai.Input.{new_input, add_capability, process, is_notification_method, Outcome, get_handler}
use gate4ai.Input.Dispatch.{process_request, answered_with}
use gate4ai.Jsonrpc.{Encoded, encoded, Message, is_empty, value, nil, GoError}
use gate4ai.Requests.{Callback}
use gate4ai.Session.{Session, connecting, connected, set_status, set_negotiated_version}
use gate4ai.Session.Send.{response_message, reply}
use gate4ai.Session.Sending.{send_response-queued, send_response_error_lost}

module _ (unmarshal : String → InitializeParams ⊎ String) (answer : String → Encoded)
    (run : Callback → Message → Session → Session) where
  initialize_request :
      (m : Message) (s : Session) (c : Client) (now : ℕ)
      → m.method ≡ some "initialize"
      → is_empty m.id ≡ false
      → process run (base_input unmarshal answer) m s c now
        ≡ answered_with m (handle_initialize unmarshal answer m s c) now
  unfolding base_input base_handlers add_capability new_input get_handler Dict.put Dict.get
      is_notification_method
  initialize_request m s c now named id =
      process_request run (base_input unmarshal answer) m s c now "initialize"
        (handle_initialize unmarshal answer) named refl id refl

  handled :
      (m : Message) (s : Session) (c : Client) (raw json : String) (p : InitializeParams)
      → m.params ≡ some raw
      → unmarshal raw ≡ inl p
      → answer (negotiate p.protocol_version) ≡ encoded json
      → handle_initialize unmarshal answer m s c ≡ (
        set_status (set_negotiated_version s (negotiate p.protocol_version)) connecting,
        record { info = p.client_info; capabilities = some p.capabilities },
        returns (value true (encoded json)) none,
      )
  unfolding handle_initialize initialize_params initialize_with
  handled m s c raw json p given read written = simp (given, read, written) refl

  failed :
      (m : Message) (s : Session) (c : Client)
      → (m.params ≡ none) ⊎ ((raw e : String) × (m.params ≡ some raw) × (unmarshal raw ≡ inr e))
      → (e : GoError) × (handle_initialize unmarshal answer m s c ≡ (s, c, returns nil (some e)))
  unfolding handle_initialize initialize_params initialize_with
  failed m s c (inl missing) = (rewrapped invalid_params_code "Missing params", simp missing refl)
  failed m s c (inr (raw, e, given, refused)) =
      (rewrapped invalid_params_code ("Invalid parameters: " <> e), simp (given, refused) refl)

  -- A request `initialize` with parameters that can be read is answered also in a new session, in a
  -- channel with room: by the JSON of the result with the negotiated version, under its
  -- identifier. The session is then connecting and has that version, and the client's information
  -- is stored.
  initialize_answered :
      (m : Message) (s : Session) (c : Client) (now : ℕ) (raw json : String) (p : InitializeParams)
      (q : List Message)
      → m.method ≡ some "initialize"
      → is_empty m.id ≡ false
      → m.params ≡ some raw
      → unmarshal raw ≡ inl p
      → answer (negotiate p.protocol_version) ≡ encoded json
      → s.output ≡ some q
      → length q < 100
      → let r : Session × Client × Outcome = process run (base_input unmarshal answer) m s c now in
        (r.0.output ≡ some (q ++ reply s m.id (some json) none ∷ []))
        × (r.0.status ≡ connecting)
        × (r.0.negotiated_version ≡ negotiate p.protocol_version)
        × (r.1 ≡ record { info = p.client_info; capabilities = some p.capabilities })
  unfolding response_message
  initialize_answered m s c now raw json p q named id given read written open_ room =
      let t : Session =
        set_status (set_negotiated_version s (negotiate p.protocol_version)) connecting in
      let e =
        initialize_request m s c now named id
        ∙ ap (λ r. answered_with m r now) (handled m s c raw json p given read written) in
      let sent =
        send_response-queued t m.id (value true (encoded json)) none now q refl open_ room tt in
      (
        ap (λ r. r.0.output) e ∙ ap (λ r. r.0.output) sent,
        ap (λ r. r.0.status) e ∙ ap (λ r. r.0.status) sent,
        ap (λ r. r.0.negotiated_version) e ∙ ap (λ r. r.0.negotiated_version) sent,
        ap (λ r. r.1) e,
      )

  -- A failed `initialize` is not answered: where the parameters are missing or cannot be read, a
  -- session that is neither connected nor connecting is left as it was, its channel included.
  initialize_unanswered :
      (m : Message) (s : Session) (c : Client) (now : ℕ)
      → m.method ≡ some "initialize"
      → is_empty m.id ≡ false
      → s.status ≢ connected
      → s.status ≢ connecting
      → s.output ≢ none
      → (m.params ≡ none) ⊎ ((raw e : String) × (m.params ≡ some raw) × (unmarshal raw ≡ inr e))
      → (process run (base_input unmarshal answer) m s c now).0 ≡ s
  initialize_unanswered m s c now named id h k open_ fails =
      let (e, refused) = failed m s c fails in
      ap (λ r. r.0)
        (initialize_request m s c now named id ∙ ap (λ r. answered_with m r now) refused)
      ∙ ap (λ r. r.0) (send_response_error_lost s m.id nil e now h k open_)
