-- ===== src/Input/Dispatch.antt =====
-- How `Process` of shared/input.go answers a message.
use gate4ai.Dict.{Dict}
use gate4ai.Prelude.{
  ℕ, ◌<◌, ◌≡◌, ◌≢◌, ◌⊎◌, inl, inr, refl, ap, ◌∙◌, true, false, Option, none, some, List, [], ◌∷◌,
  ◌++◌, String, ◌<>◌, arith, length,
}
use gate4ai.Input.{
  or_nil_text, Input, Handler, Reaction, returns, panics, Outcome, process, process_method, finish,
  handle_method, get_handler, answered, is_notification_method, default_not_found,
}
use gate4ai.Session.Sending.{send_response-queued, send_response-CanSend, CanSend}
use gate4ai.Session.{connected, Session}
use gate4ai.Session.Send.{
  response_message, send_response, Delivery, queued, nothing_to_send, session_closed, not_sendable,
  channel_full,
}
use gate4ai.Requests.{Callback}
use gate4ai.Dict
use gate4ai.Jsonrpc.{
  error_text, GoError, Message, is_empty, internal_code, RequestId, Answer, nil, plain,
}

-- What a client is told of a handler's end: its result and its error, or the panic as an error.
abbrev pub reply_of : Reaction → Answer × Option GoError
reply_of (returns result err) = (result, err)
reply_of (panics reason) =
    (nil, some (plain ("internal server error during processing: " <> reason)))

-- The response is at the end of the channel, and nothing else of the session has changed but the
-- time of its last activity.
abbrev pub IsSent : Session → Session → RequestId → Answer → Option GoError → ℕ → Type 0
IsSent before after id a e now =
    (q : List Message) × (before.output ≡ some q)
    × (after ≡ record before {
      output = some (q ++ response_message before id a e ∷ []);
      last_activity = now;
    })

Delivery-cases : (how : Delivery) → (how ≡ queued) ⊎ (how ≢ queued)
Delivery-cases queued = inl refl
Delivery-cases nothing_to_send = inr (λ e. absurd (cc))
Delivery-cases session_closed = inr (λ e. absurd (cc))
Delivery-cases not_sendable = inr (λ e. absurd (cc))
Delivery-cases channel_full = inr (λ e. absurd (cc))

send_response-IsSent :
    (s : Session) (id : RequestId) (a : Answer) (e : Option GoError) (now : ℕ)
    → let after = (send_response s id a e now).0 in
      (CanSend s a e × IsSent s after id a e now) ⊎ ((¬ CanSend s a e) × (after ≡ s))
send_response-IsSent s id a e now =
    let both = send_response-CanSend s id a e now in
    elim (Delivery-cases (send_response s id a e now).1) [
      | inl sent ↦
          let c = both.0.0 sent in
          inl (c, (c.0, c.1, ap (λ r. r.0) (send_response-queued s id a e now c.0 c.3 c.1 c.2 c.4)))
      | inr dropped ↦ inr (λ c. dropped (both.0.1 c), both.1 dropped)
    ]

module _ {W : Type 0} where
  abbrev pub answered_with : Message → Session × W × Reaction → ℕ → Session × W × Outcome
  answered_with m (s, w, r) now =
      let (a, e) = reply_of r in
      let (s', how) = send_response s m.id a e now in (s', w, answered how)

  finish_request :
      (m : Message) (r : Session × W × Reaction) (now : ℕ)
      → is_empty m.id ≡ false
      → is_notification_method m.method ≡ false
      → finish m r now ≡ answered_with m r now
  unfolding finish
  finish_request m (s, w, returns a e) now id notification = rw (id, notification)
  finish_request m (s, w, panics reason) now id notification = rw id

  pub process_request :
      (run : Callback → Message → Session → Session) (i : Input W) (m : Message) (s : Session)
      (w : W) (now : ℕ) (method : String) (h : Handler W)
      → m.method ≡ some method
      → get_handler i method ≡ some h
      → is_empty m.id ≡ false
      → is_notification_method (some method) ≡ false
      → process run i m s w now ≡ answered_with m (h m s w) now
  unfolding process
  process_request run i m s w now method h named found id notification =
      ap (λ o. process_method o run i m s w now) named
      ∙ ap (λ g. handle_method g method m s w now) found
      ∙ finish_request m (h m s w) now id (ap is_notification_method named ∙ notification)

  -- A request, which has a method with a handler and an identifier and is no notification, gets at
  -- most one response. It gets one exactly where the session that the handler leaves can send it:
  -- the result or error of the handler, or the reason of its panic, at the end of the channel under
  -- the identifier of the request. Otherwise the session is as the handler left it.
  pub process_request-CanSend :
      (run : Callback → Message → Session → Session) (i : Input W) (m : Message) (s : Session)
      (w : W) (now : ℕ) (method : String) (h : Handler W)
      → m.method ≡ some method
      → get_handler i method ≡ some h
      → is_empty m.id ≡ false
      → is_notification_method (some method) ≡ false
      → let (left, w', r) = h m s w in
        let (a, e) = reply_of r in
        let (after, world, outcome) = process run i m s w now in
        (world ≡ w')
        × ((CanSend left a e × IsSent left after m.id a e now)
            ⊎ ((¬ CanSend left a e) × (after ≡ left)))
  process_request-CanSend run i m s w now method h named found id notification =
      let (left, w', r) = h m s w in
      let (a, e) = reply_of r in
      rw (process_request run i m s w now method h named found id notification)
        (refl, send_response-IsSent left m.id a e now)

  finish_without_id :
      (m : Message) (r : Session × W × Reaction) (now : ℕ) (how : Delivery)
      → is_empty m.id ≡ true
      → (finish m r now).2 ≢ answered how
  unfolding finish
  finish_without_id m (s, w, returns a e) now how id = ground arith
  finish_without_id m (s, w, panics reason) now how id = ground arith

  handle_without_id :
      (h : Option (Handler W)) (method : String) (m : Message) (s : Session) (w : W) (now : ℕ)
      (how : Delivery)
      → is_empty m.id ≡ true
      → (handle_method h method m s w now).2 ≢ answered how
  unfolding handle_method
  handle_without_id none method m s w now how id = ground arith
  handle_without_id (some h) method m s w now how id = finish_without_id m (h m s w) now how id

  method_without_id :
      (o : Option String) (run : Callback → Message → Session → Session) (i : Input W) (m : Message)
      (s : Session) (w : W) (now : ℕ) (how : Delivery)
      → is_empty m.id ≡ true
      → (process_method o run i m s w now).2 ≢ answered how
  unfolding process_method
  method_without_id none run i m s w now how id = ground arith
  method_without_id (some method) run i m s w now how id =
      handle_without_id (get_handler i method) method m s w now how id

  -- A message with no identifier is never answered, also where its handler fails or panics.
  pub process_without_id :
      (run : Callback → Message → Session → Session) (i : Input W) (m : Message) (s : Session)
      (w : W) (now : ℕ) (how : Delivery)
      → is_empty m.id ≡ true
      → (process run i m s w now).2 ≢ answered how
  unfolding process
  process_without_id run i m s w now how id = method_without_id m.method run i m s w now how id

  get_handler_unknown :
      (i : Input W) (method : String)
      → Dict.get i.method_handlers method ≡ none
      → i.not_found_handler ≡ some default_not_found
      → get_handler i method ≡ some default_not_found
  unfolding get_handler
  get_handler_unknown i method h d = rw (h, get_handler) d

  default_response :
      (run : Callback → Message → Session → Session) (i : Input W) (m : Message) (s : Session)
      (w : W) (now : ℕ) (method : String)
      → m.method ≡ some method
      → get_handler i method ≡ some default_not_found
      → is_empty m.id ≡ false
      → is_notification_method (some method) ≡ false
      → (process run i m s w now).0
        ≡ (send_response s m.id nil (some (plain ("method not found: " <> method))) now).0
  unfolding default_not_found
  default_response run i m s w now method named found id notification =
      ap (λ t. t.0)
        (process_request run i m s w now method default_not_found named found id notification)
      ∙ ap
          (λ o.
            (send_response s m.id nil (some (plain ("method not found: " <> or_nil_text o))) now).0)
          named

  -- A request for a method that nobody registered, with the not-found handler of `NewInput`, is
  -- answered in a connected session with room: by an error whose code is that of an internal
  -- error, -32603.
  process_unknown_method :
      (run : Callback → Message → Session → Session) (i : Input W) (m : Message) (s : Session)
      (w : W) (now : ℕ) (method : String) (q : List Message)
      → m.method ≡ some method
      → Dict.get i.method_handlers method ≡ none
      → i.not_found_handler ≡ some default_not_found
      → is_empty m.id ≡ false
      → is_notification_method (some method) ≡ false
      → s.status ≡ connected
      → s.output ≡ some q
      → length q < 100
      → (r : Message) × ((process run i m s w now).0.output ≡ some (q ++ r ∷ []))
        × (r.id ≡ m.id)
        × (r.error
            ≡ some (record {
              code = internal_code;
              message = "method not found: " <> method;
              payload = none;
            }))
  unfolding default_not_found response_message error_text
  process_unknown_method run i m s w now method q named missing d id notification ready open_ room =
      (
        response_message s m.id nil (some (plain ("method not found: " <> method))),
        ap (λ t. t.output)
              (default_response run i m s w now method named
                (get_handler_unknown i method missing d) id notification)
            ∙ ap (λ t. t.0.output)
                (send_response-queued s m.id nil (some (plain ("method not found: " <> method))) now
                  q refl open_ room (rw ready tt)),
        refl,
        refl,
      )
