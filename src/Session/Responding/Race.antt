-- ===== src/Session/Responding/Race.antt =====
-- Two responses with one identifier: `ProcessResponse` of shared/requestManager.go.
use gate4ai.Prelude.{◌≡◌, refl, ap, ◌∙◌, true, false, some, List, [], ◌∷◌}
use gate4ai.Dict
use gate4ai.Jsonrpc.{IdValue, Message, id_string}
use gate4ai.Requests.{Callback, find_callback}
use gate4ai.Session.{Session}
use gate4ai.Session.Responding.{
  Responder, looks_up, calls, ends, to_call, look_up, respond_step, Turn, one, other, run_turns,
}

abbrev pub one_after_other : List Turn
one_after_other = one ∷ one ∷ one ∷ other ∷ other ∷ other ∷ []

-- Both look up before either deletes.
abbrev pub overlapping : List Turn
overlapping = one ∷ other ∷ one ∷ one ∷ other ∷ other ∷ []

-- A callback that runs, and the deletion of its entry.
abbrev pub called :
    (Callback → Message → Session → Session) → Callback → Message → IdValue → Session → Session
called run c m id s =
    let t = run c m s in record t { requests = Dict.remove t.requests (id_string (some id)) }

finds :
    (run : Callback → Message → Session → Session) (s : Session) (m : Message) (id : IdValue)
    (c : Callback)
    → m.id ≡ some id
    → find_callback s.requests (some id) ≡ some c
    → respond_step run s (looks_up m) ≡ (s, calls c m)
unfolding respond_step look_up to_call
finds run s m id c h f = rw h (rw f refl)

-- The call and the deletion, once the entry was found.
finishes :
    (run : Callback → Message → Session → Session) (s : Session) (m : Message) (id : IdValue)
    (c : Callback) (turns : List Turn) (b : Responder)
    → m.id ≡ some id
    → run_turns run (one ∷ one ∷ turns) (s, calls c m, b)
      ≡ run_turns run turns (called run c m id s, ends true, b)
unfolding run_turns respond_step
finishes run s m id c turns b h =
    ap
      (λ i. run_turns run turns (
        record (run c m s) { requests = Dict.remove (run c m s).requests (id_string i) },
        ends true,
        b,
      ))
      h

finishes_other :
    (run : Callback → Message → Session → Session) (s : Session) (m : Message) (id : IdValue)
    (c : Callback) (a : Responder)
    → m.id ≡ some id
    → run_turns run (other ∷ other ∷ []) (s, a, calls c m) ≡ (called run c m id s, a, ends true)
unfolding run_turns respond_step
finishes_other run s m id c a h =
    ap
      (λ i. (
        record (run c m s) { requests = Dict.remove (run c m s).requests (id_string i) },
        a,
        ends true,
      ))
      h

ended :
    (run : Callback → Message → Session → Session) (s : Session)
    → run_turns run (other ∷ other ∷ []) (s, ends true, ends false) ≡ (s, ends true, ends false)
unfolding run_turns respond_step
ended run s = refl

at_once :
    (run : Callback → Message → Session → Session) (s : Session) (m again : Message) (id : IdValue)
    (c : Callback)
    → m.id ≡ some id
    → again.id ≡ some id
    → find_callback s.requests (some id) ≡ some c
    → run_turns run overlapping (s, looks_up m, looks_up again)
      ≡ (called run c again id (called run c m id s), ends true, ends true)
unfolding run_turns
at_once run s m again id c h h' f =
    let rest = other ∷ other ∷ [] in
    ap
      (λ (r : Session × Responder).
        run_turns run (other ∷ one ∷ one ∷ rest) (r.0, r.1, looks_up again))
      (finds run s m id c h f)
    ∙ ap (λ (r : Session × Responder). run_turns run (one ∷ one ∷ rest) (r.0, calls c m, r.1))
        (finds run s again id c h' f)
    ∙ finishes run s m id c rest (calls c again) h
    ∙ finishes_other run (called run c m id s) again id c (ends true) h'
