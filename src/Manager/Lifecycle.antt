-- ===== src/Manager/Lifecycle.antt =====
-- Closing sessions: `CloseSession` and `CloseAllSessions` of
-- server/transport/session-manager.go.
use gate4ai.Prelude.{
  ℕ, zero, suc, ◌≡◌, ◌≢◌, ◌⊎◌, inl, inr, refl, sym, ap, ◌∙◌, false, none, some, List, [], ◌∷◌,
  String, ◌==◌, eq_iff, arith, if◌then◌else◌, Option-cases, str_refl, get_elem?,
}
use gate4ai.Dict
use gate4ai.Dict.{Dict, get-remove}
use gate4ai.Manager.{
  Manager, ServerSession, close_session, close_at, close_all_sessions, close_each, get_session,
  deref, update_at, on_base, keys,
}
use gate4ai.Session.{close, Session, acquire_output}

get_elem?-update_at_self :
    (f : ServerSession → ServerSession) (heap : List ServerSession) (place : ℕ) {s : ServerSession}
    → get_elem? heap place ≡ some s
    → get_elem? (update_at f heap place) place ≡ some (f s)
unfolding update_at
get_elem?-update_at_self f [] place h = cc
get_elem?-update_at_self f (x ∷ heap) zero h = ground arith
get_elem?-update_at_self f (x ∷ heap) (suc place) h = get_elem?-update_at_self f heap place h

get_elem?-update_at_ne :
    (f : ServerSession → ServerSession) (heap : List ServerSession) (place other : ℕ)
    → place ≢ other
    → get_elem? (update_at f heap place) other ≡ get_elem? heap other
unfolding update_at
get_elem?-update_at_ne f [] place other h = refl
get_elem?-update_at_ne f (x ∷ heap) zero zero h = absurd (h refl)
get_elem?-update_at_ne f (x ∷ heap) zero (suc other) h = refl
get_elem?-update_at_ne f (x ∷ heap) (suc place) zero h = refl
get_elem?-update_at_ne f (x ∷ heap) (suc place) (suc other) h =
    get_elem?-update_at_ne f heap place other (λ e. h (ap suc e))

pub get-close_session :
    (m : Manager) (id other : String)
    → Dict.get (close_session m id).sessions other
      ≡ (if id == other then none else Dict.get m.sessions other)
unfolding close_session
get-close_session m id other = elim (Option-cases (Dict.get m.sessions id)) [
  | inl e ↦ rw (e, close_at) (ground (arith, eq_iff id other))
  | inr (place, e) ↦ rw (e, close_at) (get-remove m.sessions id other)
]

close_known :
    (m : Manager) (id : String) (place : ℕ)
    → Dict.get m.sessions id ≡ some place
    → close_session m id ≡ record {
      sessions = Dict.remove m.sessions id;
      heap = update_at (on_base close) m.heap place;
    }
unfolding close_session
close_known m id place h = rw (h, close_at)

gone_self : (m : Manager) (id : String) → Dict.get (close_session m id).sessions id ≡ none
gone_self m id = ground (arith, get-close_session m id id, str_refl id)

kept_other :
    (m : Manager) (id other : String) (j : ℕ)
    → other ≢ id
    → Dict.get m.sessions other ≡ some j
    → Dict.get (close_session m id).sessions other ≡ some j
kept_other m id other j ne h = ground (arith, get-close_session m id other, eq_iff id other)

closed_not_acquired : (s : Session) → (acquire_output (close s)).1 ≡ false
unfolding acquire_output close
closed_not_acquired s = ground arith

-- After `CloseSession` of a session in the table its identifier is unknown, the session itself is
-- closed, so that nobody can acquire its output, and every other identifier that leads to another
-- place leads to the same session as before.
close_session_closes :
    (m : Manager) (id : String) (place : ℕ) (s : ServerSession)
    → Dict.get m.sessions id ≡ some place
    → get_elem? m.heap place ≡ some s
    → (get_session (close_session m id) id ≡ none)
      × (get_elem? (close_session m id).heap place ≡ some (record s { base = close s.base }))
      × ((acquire_output (close s.base)).1 ≡ false)
      × ((other : String) (j : ℕ)
          → other ≢ id
          → Dict.get m.sessions other ≡ some j
          → place ≢ j
          → get_session (close_session m id) other ≡ get_session m other)
unfolding get_session on_base
close_session_closes m id place s h k = (
  ap (deref (close_session m id)) (gone_self m id),
  ap (λ (t : Manager). get_elem? t.heap place) (close_known m id place h)
      ∙ get_elem?-update_at_self (on_base close) m.heap place k,
  closed_not_acquired s.base,
  λ other j ne found_ apart.
      ap (deref (close_session m id)) (kept_other m id other j ne found_)
      ∙ ap (λ (t : Manager). get_elem? t.heap j) (close_known m id place h)
      ∙ get_elem?-update_at_ne (on_base close) m.heap place j apart
      ∙ sym (ap (deref m) found_),
)

abbrev In : String → List String → Type 0
In j [] = ⊥
In j (x ∷ xs) = (x ≡ j) ⊎ In j xs

absent_or_key : (d : Dict ℕ) (j : String) → (Dict.get d j ≡ none) ⊎ In j (keys d)
unfolding Dict.get keys
absent_or_key [] j = inl refl
absent_or_key ((i, v) ∷ d) j = ground (arith, absent_or_key d j, eq_iff i j)

close_each_absent :
    (m : Manager) (ids : List String) (j : String)
    → (Dict.get m.sessions j ≡ none) ⊎ In j ids
    → Dict.get (close_each m ids).sessions j ≡ none
unfolding close_each
close_each_absent m [] j (inl h) = h
close_each_absent m [] j (inr x) = elim x [ ]
close_each_absent m (id ∷ ids) j h =
    close_each_absent (close_session m id) ids j
      (ground (arith, get-close_session m id j, eq_iff id j))

-- `CloseAllSessions` leaves no identifier in the table.
pub close_all_sessions_empty :
    (m : Manager) (id : String) → get_session (close_all_sessions m) id ≡ none
unfolding get_session close_all_sessions
close_all_sessions_empty m id =
    ap (deref (close_all_sessions m))
      (close_each_absent m (keys m.sessions) id (absent_or_key m.sessions id))
