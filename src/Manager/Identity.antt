-- ===== src/Manager/Identity.antt =====
-- Under which identifier a session is found: `CreateSession` and `GetSession` of
-- server/transport/session-manager.go.
use gate4ai.Prelude.{
  ℕ, ◌≡◌, ◌≢◌, refl, sym, ap, ◌∙◌, some, List, [], ◌∷◌, ◌++◌, String, eq_iff, arith, length,
  get_elem?,
}
use gate4ai.Dict.{get-put_self}
use gate4ai.Manager.{
  new_server_session, Manager, ServerSession, SessionParams, create_session, get_session, deref,
}

get_elem?-append_self :
    (heap : List ServerSession) (s : ServerSession)
    → get_elem? (heap ++ s ∷ []) (length heap) ≡ some s
get_elem?-append_self [] s = refl
get_elem?-append_self (x ∷ heap) s = get_elem?-append_self heap s

-- A session that was just created is found under its own identifier.
pub get_session-create_session :
    (m : Manager) (user_id id random_id : String) (params : SessionParams) (now : ℕ)
    → let (m', s) = create_session m user_id id params random_id now in
      get_session m' s.base.id ≡ some s
unfolding get_session create_session
get_session-create_session m user_id id random_id params now =
    ap (deref (create_session m user_id id params random_id now).0) (
      get-put_self m.sessions (new_server_session user_id id params random_id now).base.id
        (length m.heap))
    ∙ get_elem?-append_self m.heap (new_server_session user_id id params random_id now)

-- `CreateSession` hands the user to `NewSession` where that takes the identifier. So the identifier
-- of the session of a user is the name of that user, and what was asked for as the identifier is
-- stored as the user.
pub create_session_identity :
    (m : Manager) (user_id id random_id : String) (params : SessionParams) (now : ℕ)
    → user_id ≢ ""
    → let (m', s) = create_session m user_id id params random_id now in
      (s.base.id ≡ user_id) × (s.user_id ≡ id) × (get_session m' user_id ≡ some s)
unfolding create_session
create_session_identity m user_id id random_id params now h =
    let named : (create_session m user_id id params random_id now).1.base.id ≡ user_id =
      ground (arith, eq_iff user_id "") in
    (
      named,
      refl,
      ap (get_session (create_session m user_id id params random_id now).0) (sym named)
          ∙ get_session-create_session m user_id id random_id params now,
    )

-- A second session of a user takes the place of the first: afterwards the identifier of the first
-- leads to the second, whatever identifiers were asked for.
pub create_session_again :
    (m : Manager) (user_id id id' random_id random_id' : String) (params params' : SessionParams)
    (now now' : ℕ)
    → user_id ≢ ""
    → let (m1, s1) = create_session m user_id id params random_id now in
      let (m2, s2) = create_session m1 user_id id' params' random_id' now' in
      (s1.base.id ≡ s2.base.id) × (get_session m2 s1.base.id ≡ some s2)
create_session_again m user_id id id' random_id random_id' params params' now now' h =
    let m1 = (create_session m user_id id params random_id now).0 in
    let first = create_session_identity m user_id id random_id params now h in
    let second = create_session_identity m1 user_id id' random_id' params' now' h in
    (
      first.0 ∙ sym second.0,
      ap (get_session (create_session m1 user_id id' params' random_id' now').0) first.0 ∙ second.2,
    )
