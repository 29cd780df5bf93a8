-- ===== src/McpClient/Loop/Sound.antt =====
-- Any order of the calls and events of gateway/clients/mcpClient/session.go: no step panics.
use gate4ai.Jsonrpc.{Message}
use gate4ai.Session.{Session, close, set_status, new, is_connected}
use gate4ai.McpClient.{
  ClientSession, Decoded, open_session, await, initialize_response, new_client_session, on_base,
}
use gate4ai.McpClient.Initialization.{
  IsSound, Succeeds, open_session-IsSound, initialize_response-IsSound, await-IsSound,
  end_loop-IsSound, written, flagged, offline-IsSound, with_endpoint-IsSound,
  new_client_session-IsSound,
}
use gate4ai.McpClient.Loop.{
  LoopEvent, outgoing, sse, nil_event, output_closed, sse_closed, close_signal, cancelled,
  LoopEffect, loop_step, close_session, ended, on_endpoint, resolved, on_message, parsed,
}
use gate4ai.Dict.{Dict}
use gate4ai.Prelude.{
  ℕ, ◌≡◌, ◌⊎◌, inl, inr, refl, ap, false, Option, none, some, List, [], ◌∷◌, String, ◌==◌,
  Bool-cases, if_cases, Option-cases,
}

abbrev pub state_of : Option (ClientSession × LoopEffect) → Option ClientSession
state_of none = none
state_of (some (s, effect)) = some s

ended-IsSound :
    (o : Option ClientSession) → Succeeds IsSound o → Succeeds IsSound (state_of (ended o))
unfolding ended
ended-IsSound none h = h
ended-IsSound (some s) h = end_loop-IsSound s h

status-close : (b : Session) → (close b).status ≡ new
unfolding close
status-close b = elim (Option-cases b.output) [ inl e ↦ rw e refl | inr (q, e) ↦ rw e refl ]

close_session-IsSound : (s : ClientSession) → IsSound s → IsSound (close_session s)
unfolding close_session
close_session-IsSound s h =
    if_cases IsSound s.close_ch
      (on_base (λ b. close (set_status b new)) (record s { close_ch = false })) s
      (λ _.
        offline-IsSound (on_base (λ b. close (set_status b new)) (record s { close_ch = false }))
          (flagged s h) (ap is_connected (status-close (set_status s.base new))))
      (λ _. h)

pub data Op : Type 0 where
  opens : Option String → Op
  answers : Message → Op
  handles : LoopEvent → Op
  awaits closes : Op

module _ (resolve : String → String ⊎ String) (parse : String → Option (List Message)) where
  resolved-IsSound :
      (s : ClientSession) (r : String ⊎ String)
      → IsSound s
      → Succeeds IsSound (state_of (resolved resolve parse s r))
  unfolding resolved
  resolved-IsSound s (inl url) h = with_endpoint-IsSound s url h
  resolved-IsSound s (inr e) h = ended-IsSound _ (written _ s (flagged s h))

  parsed-IsSound :
      (s : ClientSession) (r : Option (List Message))
      → IsSound s
      → Succeeds IsSound (state_of (parsed resolve parse s r))
  unfolding parsed
  parsed-IsSound s none h = h
  parsed-IsSound s (some ms) h = h

  on_endpoint-IsSound :
      (s : ClientSession) (text : String)
      → IsSound s
      → Succeeds IsSound (state_of (on_endpoint resolve parse s text))
  unfolding on_endpoint
  on_endpoint-IsSound s text h = elim (Bool-cases (s.post_endpoint == "")) [
    | inr e ↦ rw e h
    | inl e ↦ rw e (elim (Bool-cases (text == "")) [
      | inl f ↦ rw f (ended-IsSound _ (written _ s (flagged s h)))
      | inr f ↦ rw f (resolved-IsSound s (resolve text) h)
    ])
  ]

  loop_step-IsSound :
      (s : ClientSession) (event : LoopEvent)
      → IsSound s
      → Succeeds IsSound (state_of (loop_step resolve parse s event))
  unfolding loop_step on_message
  loop_step-IsSound s (outgoing (some m)) h = h
  loop_step-IsSound s (outgoing none) h = h
  loop_step-IsSound s (sse name text) h = elim (Bool-cases (name == "endpoint")) [
    | inl e ↦ rw e (on_endpoint-IsSound s text h)
    | inr e ↦ rw e (elim (Bool-cases (name == "message")) [
      | inl f ↦ rw f (elim (Bool-cases (text == "")) [
        | inl g ↦ rw g h
        | inr g ↦ rw g (parsed-IsSound s (parse text) h)
      ])
      | inr f ↦ rw f h
    ])
  ]
  loop_step-IsSound s nil_event h = h
  loop_step-IsSound s output_closed h = end_loop-IsSound s h
  loop_step-IsSound s sse_closed h = end_loop-IsSound s h
  loop_step-IsSound s close_signal h = end_loop-IsSound s h
  loop_step-IsSound s cancelled h = end_loop-IsSound s h

  -- `decode` reads the result of an `initialize`, `slug` names the backend.
  module _ (decode : String → Decoded) (slug : String) where
    unfoldable pub step : ClientSession → Op → Option ClientSession
    step s (opens e) = open_session s e
    step s (answers m) = initialize_response decode slug m s
    step s (handles event) = state_of (loop_step resolve parse s event)
    step s awaits = some (await s).0
    step s closes = some (close_session s)

    unfoldable pub run : ClientSession → List Op → Option ClientSession
    unfolding step
    run s [] = some s
    run s (o ∷ os) = elim (step s o) [ none ↦ none | some t ↦ run t os ]

    step-IsSound : (s : ClientSession) (o : Op) → IsSound s → Succeeds IsSound (step s o)
    unfolding step
    step-IsSound s (opens e) h = open_session-IsSound s e h
    step-IsSound s (answers m) h = initialize_response-IsSound decode slug m s h
    step-IsSound s (handles event) h = loop_step-IsSound s event h
    step-IsSound s awaits h = await-IsSound s h
    step-IsSound s closes h = close_session-IsSound s h

    run-IsSound : (s : ClientSession) (os : List Op) → IsSound s → Succeeds IsSound (run s os)
    unfolding run
    run-IsSound s [] h = h
    run-IsSound s (o ∷ os) h =
        elim (step s o)
            as (λ r.
              Succeeds IsSound r → Succeeds IsSound (elim r [ none ↦ none | some t ↦ run t os ])) [
                | none ↦ λ k. k
                | some t ↦ λ k. run-IsSound t os k
              ]
          (step-IsSound s o h)

    -- Whatever the order of openings, responses, events, waits and closings of a new session, none
    -- panics: the channel of the initialization is closed at most once, and no error is sent into it
    -- afterwards.
    pub run-new_client_session-IsSound :
        (random_id : String) (headers : Dict String) (now : ℕ) (os : List Op)
        → Succeeds IsSound (run (new_client_session random_id headers now) os)
    run-new_client_session-IsSound random_id headers now os =
        run-IsSound (new_client_session random_id headers now) os
          (new_client_session-IsSound random_id headers now)
