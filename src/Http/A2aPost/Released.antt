-- ===== src/Http/A2aPost/Released.antt =====
-- What `handleA2APOST` leaves of its session, also for another request of the same session.
use gate4ai.Prelude.{
  ℕ, ◌≡◌, ◌≢◌, refl, ◌∙◌, Bool, true, false, not, ◌&&◌, Option, none, some, List, String, arith,
  if_cases,
}
use gate4ai.Http.{Arrival}
use gate4ai.Http.A2aPost.{
  plain, A2aItem, A2aEnd, returned, panicked, waiting, a2a_in_session, after_put, with_output,
  released, answered, is_streaming,
}
use gate4ai.Input.{Input, put, validate, offer_input}
use gate4ai.Jsonrpc.{nil, RequestId, GoError, Answer, Encoded, Message}
use gate4ai.Requests.{Callback}
use gate4ai.Session.{
  Session, disconnected, connected, set_status, acquire_output, update_last_activity,
}
use gate4ai.Session.Send.{send_response, is_initialize_response, queued}

send_response-acquired :
    (s : Session) (id : RequestId) (a : Answer) (e : Option GoError) (now : ℕ)
    → (send_response s id a e now).0.is_output_acquired ≡ s.is_output_acquired
unfolding send_response
send_response-acquired s id a e now = ground arith

disconnected_drops :
    (s : Session) (id : RequestId) (a : Answer) (e : Option GoError) (now : ℕ)
    → s.status ≡ disconnected
    → is_initialize_response a e ≡ false
    → (send_response s id a e now).1 ≢ queued
unfolding send_response
disconnected_drops s id a e now h k = ground (arith, h, k)

module _ {W : Type 0} where
  offer_input-acquired :
      (o : Option (List Message)) (i : Input W) (m : Message) (s : Session) (w : W) (now : ℕ)
      → (offer_input o i m s w now).1.is_output_acquired ≡ s.is_output_acquired
  unfolding offer_input
  offer_input-acquired none i m s w now = ground (
    arith,
    send_response-acquired s m.id nil (some (plain "message processor busy, message dropped")) now,
  )
  offer_input-acquired (some q) i m s w now = ground (
    arith,
    send_response-acquired s m.id nil (some (plain "message processor busy, message dropped")) now,
  )

  put-acquired :
      (i : Input W) (m : Message) (s : Session) (w : W) (now : ℕ)
      → (put i m s w now).1.is_output_acquired ≡ s.is_output_acquired
  unfolding put
  put-acquired i m s w now = ground (
    arith,
    offer_input-acquired i.input i m (update_last_activity s now) (validate i.validators m w).1 now,
  )

module _ (marshal : Message → Encoded) (is_final : String → Bool)
    (run : Callback → Message → Session → Session) where
  released-disconnected :
      (r : Session × List A2aItem × A2aEnd)
      → (released marshal is_final run r).2 ≢ waiting
      → (released marshal is_final run r).0.status ≡ disconnected
  unfolding released
  released-disconnected (s, items, returned) h = refl
  released-disconnected (s, items, panicked) h = refl
  released-disconnected (s, items, waiting) h = absurd (h refl)

  with_output-disconnected :
      (p : Session × Bool) (m : Message) (method : String) (arrivals : List Arrival)
      → (with_output marshal is_final run p m method arrivals).2 ≢ waiting
      → (with_output marshal is_final run p m method arrivals).0.status ≡ disconnected
  unfolding with_output
  with_output-disconnected (s, false) m method arrivals h = refl
  with_output-disconnected (s, true) m method arrivals h =
      released-disconnected (answered marshal is_final run s m method arrivals) h

  held :
      (s : Session) (m : Message) (method : String) (arrivals : List Arrival)
      → s.is_output_acquired ≡ true
      → (with_output marshal is_final run (acquire_output s) m method arrivals).2 ≡ returned
  unfolding with_output acquire_output
  held s m method arrivals h = rw (h, with_output) refl

  module _ {W : Type 0} where
    after_put-disconnected :
        (p : Input W × Session × W × Option GoError) (m : Message) (method : String)
        (arrivals : List Arrival)
        → (after_put marshal is_final run p m method arrivals).4 ≢ waiting
        → (after_put marshal is_final run p m method arrivals).1.status ≡ disconnected
    unfolding after_put
    after_put-disconnected (i, s, w, some e) m method arrivals h = refl
    after_put-disconnected (i, s, w, none) m method arrivals h =
        with_output-disconnected (acquire_output s) m method arrivals h

    -- However an A2A request ends, also in a panic, its session is disconnected.
    pub in_session-disconnected :
        (m : Message) (method : String) (accepts : Bool) (arrivals : List Arrival) (i : Input W)
        (s : Session) (w : W) (now : ℕ)
        → (a2a_in_session marshal is_final run m method accepts arrivals i s w now).4 ≢ waiting
        → (a2a_in_session marshal is_final run m method accepts arrivals i s w now).1.status
          ≡ disconnected
    unfolding a2a_in_session
    in_session-disconnected m method accepts arrivals i s w now =
        if_cases
          (λ (r : Input W × Session × W × List A2aItem × A2aEnd).
            r.4 ≢ waiting → r.1.status ≡ disconnected)
          (is_streaming marshal is_final run method && not accepts) _ _ (λ _ h. refl)
          (λ _.
            after_put-disconnected
              (put i (record m { session = some s.id }) (set_status s connected) w now) m method
              arrivals)

    after_put-held :
        (p : Input W × Session × W × Option GoError) (m : Message) (method : String)
        (arrivals : List Arrival)
        → p.1.is_output_acquired ≡ true
        → (after_put marshal is_final run p m method arrivals).4 ≡ returned
    unfolding after_put
    after_put-held (i, s, w, some e) m method arrivals h = refl
    after_put-held (i, s, w, none) m method arrivals h = held s m method arrivals h

    in_session-held :
        (m : Message) (method : String) (accepts : Bool) (arrivals : List Arrival) (i : Input W)
        (s : Session) (w : W) (now : ℕ)
        → s.is_output_acquired ≡ true
        → (a2a_in_session marshal is_final run m method accepts arrivals i s w now).4 ≡ returned
    unfolding a2a_in_session
    in_session-held m method accepts arrivals i s w now h =
        if_cases (λ (r : Input W × Session × W × List A2aItem × A2aEnd). r.4 ≡ returned)
          (is_streaming marshal is_final run method && not accepts) _ _ (λ _. refl)
          (λ _.
            after_put-held (put i (record m { session = some s.id }) (set_status s connected) w now)
              m method arrivals
              (put-acquired i (record m { session = some s.id }) (set_status s connected) w now
                ∙ h))

    -- While one request holds the channel of a session, any other A2A request in that session
    -- returns at once, and leaves the session disconnected: no result but that of `initialize` and
    -- no error can then be sent, so that the answer which the first request waits for is dropped.
    pub a2a_in_session_strands :
        (m : Message) (method : String) (accepts : Bool) (arrivals : List Arrival) (i : Input W)
        (s : Session) (w : W) (now : ℕ)
        → s.is_output_acquired ≡ true
        → let t : Session =
            (a2a_in_session marshal is_final run m method accepts arrivals i s w now).1 in
          ((a2a_in_session marshal is_final run m method accepts arrivals i s w now).4 ≡ returned)
          × (t.status ≡ disconnected)
          × ((id : RequestId) (a : Answer) (e : Option GoError) (later : ℕ)
              → is_initialize_response a e ≡ false
              → (send_response t id a e later).1 ≢ queued)
    a2a_in_session_strands m method accepts arrivals i s w now h =
        let ends = in_session-held m method accepts arrivals i s w now h in
        let left =
          in_session-disconnected m method accepts arrivals i s w now (λ q. cc (ends, q)) in
        (
          ends,
          left,
          λ id a e later plain_answer. disconnected_drops _ id a e later left plain_answer,
        )
