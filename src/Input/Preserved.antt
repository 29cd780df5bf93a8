-- ===== src/Input/Preserved.antt =====
-- What processing a message leaves true of its session, from what its handlers and callbacks do:
-- the loop body of shared/input.go touches neither the status nor the negotiated version itself.
use mathlib.Core.Path.{subst}
use gate4ai.Dict
use gate4ai.Dict.{Dict}
use gate4ai.Prelude.{
  ℕ, inl, inr, Bool, true, false, not, ◌&&◌, Option, none, some, [], ◌∷◌, String, ◌<>◌, ◌==◌, arith,
  if◌then◌else◌, Bool-cases, Option-cases, All,
}
use gate4ai.Input.{
  Input, Handler, Reaction, returns, panics, Outcome, answered, silent, invalid, resolved,
  is_notification_method, finish, handle_method, process_method, process, get_handler,
}
use gate4ai.Jsonrpc.{
  RequestId, GoError, Answer, Message, nil, plain, rpc, is_empty, method_not_found_code,
}
use gate4ai.Requests.{Callback}
use gate4ai.Session.{Session, Status}
use gate4ai.Session.Send.{process_by_id, invoke, send_response, process_response}

module _ (Q : Status → String → Type 0) where
  -- Of a session, by its status and negotiated version.
  abbrev pub OfSession : Session → Type 0
  OfSession s = Q s.status s.negotiated_version

  abbrev pub KeptBy : {W : Type 0} → Handler W → Type 0
  KeptBy {W} h = (m : Message) (s : Session) (w : W) → OfSession s → OfSession (h m s w).0

  abbrev pub KeptByOption : {W : Type 0} → Option (Handler W) → Type 0
  KeptByOption none = Unit
  KeptByOption (some h) = KeptBy h

  pub send_response-OfSession :
      (s : Session) (id : RequestId) (a : Answer) (e : Option GoError) (now : ℕ)
      → OfSession s
      → OfSession (send_response s id a e now).0
  unfolding send_response
  send_response-OfSession s id a e now h = ground arith

  module _ (run : Callback → Message → Session → Session)
      (keep : (c : Callback) (m : Message) (s : Session)
        → OfSession s
        → OfSession (run c m s)) where
    invoke-OfSession :
        (c : Option Callback) (s : Session) (m : Message)
        → OfSession s
        → OfSession (invoke run c s m).0
    unfolding invoke
    invoke-OfSession none s m h = h
    invoke-OfSession (some c) s m h = keep c m s h

    process_by_id-OfSession :
        (id : RequestId) (s : Session) (m : Message)
        → OfSession s
        → OfSession (process_by_id run id s m).0
    unfolding process_by_id
    process_by_id-OfSession none s m h = h
    process_by_id-OfSession (some id) s m h = invoke-OfSession _ s m h

  module _ {W : Type 0} where
    KeptBy-get :
        (table : Dict (Handler W)) (k : String)
        → All (λ e. KeptBy e.1) table
        → KeptByOption (Dict.get table k)
    unfolding Dict.get
    KeptBy-get [] k h = tt
    KeptBy-get ((j, v) ∷ table) k h = elim (Bool-cases (j == k)) [
      | inl e ↦ rw e h.0
      | inr e ↦ rw e (KeptBy-get table k h.1)
    ]

    -- Every handler of the processor keeps it.
    abbrev pub KeptByInput : Input W → Type 0
    KeptByInput i = All (λ e. KeptBy e.1) i.method_handlers × KeptByOption i.not_found_handler

    get_handler-KeptBy : (i : Input W) (k : String) → KeptByInput i → KeptByOption (get_handler i k)
    unfolding get_handler
    get_handler-KeptBy i k h = elim (Option-cases (Dict.get i.method_handlers k)) [
      | inl e ↦ rw (e, get_handler) h.1
      | inr (g, e) ↦
          let kept : KeptByOption (some g) = subst KeptByOption e (KeptBy-get _ k h.0) in
          rw (e, get_handler) kept
    ]

    abbrev After : Session × W × Outcome → Type 0
    After t = OfSession t.0

    -- A response is sent, or nothing is, by a test.
    chosen-OfSession :
        (b : Bool) (s : Session) (w : W) (id : RequestId) (a : Answer) (e : Option GoError)
        (now : ℕ)
        → OfSession s
        → After (
            if b
            then ((send_response s id a e now).0, w, answered (send_response s id a e now).1)
            else (s, w, silent))
    chosen-OfSession true s w id a e now h = send_response-OfSession s id a e now h
    chosen-OfSession false s w id a e now h = h

    finish-OfSession :
        (m : Message) (s : Session) (w : W) (r : Reaction) (now : ℕ)
        → OfSession s
        → OfSession (finish m (s, w, r) now).0
    unfolding finish
    finish-OfSession m s w (returns a e) now h =
        chosen-OfSession (not (is_empty m.id) && not (is_notification_method m.method)) s w m.id a e
          now h
    finish-OfSession m s w (panics reason) now h =
        chosen-OfSession (not (is_empty m.id)) s w m.id nil
          (some (plain ("internal server error during processing: " <> reason))) now h

    end-OfSession :
        (m : Message) (r : Session × W × Reaction) (now : ℕ)
        → OfSession r.0
        → OfSession (finish m r now).0
    end-OfSession m (s, w, r) now h = finish-OfSession m s w r now h

    missing-OfSession :
        (b : Bool) (m : Message) (s : Session) (w : W) (e : GoError) (now : ℕ)
        → OfSession s
        → After (
            if b then (s, w, silent) else (
              (send_response s m.id nil (some e) now).0,
              w,
              answered (send_response s m.id nil (some e) now).1,
            ))
    missing-OfSession true m s w e now h = h
    missing-OfSession false m s w e now h = send_response-OfSession s m.id nil (some e) now h

    handle_method-OfSession :
        (o : Option (Handler W)) (method : String) (m : Message) (s : Session) (w : W) (now : ℕ)
        → KeptByOption o
        → OfSession s
        → OfSession (handle_method o method m s w now).0
    unfolding handle_method
    handle_method-OfSession (some g) method m s w now kept h =
        end-OfSession m (g m s w) now (kept m s w h)
    handle_method-OfSession none method m s w now kept h =
        missing-OfSession (is_empty m.id) m s w
          (rpc (record {
            code = method_not_found_code;
            message = "Method not found: " <> method;
            payload = none;
          }))
          now h

    unidentified-OfSession :
        (b : Bool) (s : Session) (w : W) (p : Session × Bool)
        → OfSession s
        → OfSession p.0
        → After (if b then (s, w, invalid) else (p.0, w, resolved p.1))
    unidentified-OfSession true s w p h k = h
    unidentified-OfSession false s w p h k = k

    module _ (run : Callback → Message → Session → Session)
        (keep : (c : Callback) (m : Message) (s : Session) → OfSession s → OfSession (run c m s))
        (i : Input W) (kept : KeptByInput i) where
      process_method-OfSession :
          (o : Option String) (m : Message) (s : Session) (w : W) (now : ℕ)
          → OfSession s
          → OfSession (process_method o run i m s w now).0
      unfolding process_method process_response
      process_method-OfSession none m s w now h =
          unidentified-OfSession (is_empty m.id) s w (process_by_id run m.id s m) h
            (process_by_id-OfSession run keep m.id s m h)
      process_method-OfSession (some k) m s w now h =
          handle_method-OfSession (get_handler i k) k m s w now (get_handler-KeptBy i k kept) h

      -- What the handlers and callbacks keep of the status and the negotiated version, a message
      -- keeps.
      pub process-OfSession :
          (m : Message) (s : Session) (w : W) (now : ℕ)
          → OfSession s
          → OfSession (process run i m s w now).0
      unfolding process
      process-OfSession m s w now h = process_method-OfSession m.method m s w now h
