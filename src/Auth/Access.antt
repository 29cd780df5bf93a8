-- ===== src/Auth/Access.antt =====
-- What `Authenticate` and `getSession` grant, and what a client needs for it.
use gate4ai.Prelude.{ℤ, ℕ, ◌≡◌, ◌≢◌, ◌⊎◌, sym, ap, ◌∙◌, Bool, some, String, eq_iff, arith, str_ne}
use gate4ai.Manager.{Manager, ServerSession, create_session, get_session}
use gate4ai.Manager.Identity.{create_session_identity}
use gate4ai.Config.{Config, found, other_type, authorized_users_only}
use gate4ai.Auth.{
  save_auth_key, decide_access, initial_params, save_user_id, SessionParams, Request, granted,
  refused, session_not_found, authenticate, session_for, user_of_key, get_user_id, get_auth_key,
}
use gate4ai.Dict.{dict_laws}

-- The parameters of a session that was granted.
abbrev pub granted_params : String → String → String → SessionParams
granted_params user_id auth_key remote_addr =
    save_user_id (save_auth_key (initial_params remote_addr) auth_key) user_id

get_user_id-granted_params :
    (user_id auth_key remote_addr : String)
    → get_user_id (granted_params user_id auth_key remote_addr) ≡ user_id
unfolding get_user_id save_user_id save_auth_key
get_user_id-granted_params user_id auth_key remote_addr = simp dict_laws

get_auth_key-granted_params :
    (user_id auth_key remote_addr : String)
    → get_auth_key (granted_params user_id auth_key remote_addr) ≡ auth_key
unfolding get_auth_key save_user_id save_auth_key
get_auth_key-granted_params user_id auth_key remote_addr = simp dict_laws

decide_authorized_only :
    (user_id auth_key remote_addr : String)
    → ((user_id ≡ "")
        × (decide_access (found authorized_users_only) user_id auth_key remote_addr
            ≡ refused session_not_found))
      ⊎ ((user_id ≢ "")
          × (decide_access (found authorized_users_only) user_id auth_key remote_addr
              ≡ granted (user_id, granted_params user_id auth_key remote_addr)))
unfolding decide_access
decide_authorized_only user_id auth_key remote_addr = ground (arith, eq_iff user_id "")

-- Where only authorized users are let in, a key that stands for nobody is refused, and any other
-- key is granted the user that it stands for; the parameters name that user and the key.
pub authenticate_authorized_only :
    (sha256_hex : String → String) (cfg : Config) (auth_key remote_addr : String)
    → cfg.authorization_type ≡ found authorized_users_only
    → let user_id = user_of_key sha256_hex cfg auth_key in
      let params = granted_params user_id auth_key remote_addr in
      (((user_id ≡ "")
          × (authenticate sha256_hex cfg auth_key remote_addr ≡ refused session_not_found))
        ⊎ ((user_id ≢ "")
            × (authenticate sha256_hex cfg auth_key remote_addr ≡ granted (user_id, params))))
      × (get_user_id params ≡ user_id)
      × (get_auth_key params ≡ auth_key)
unfolding authenticate
authenticate_authorized_only sha256_hex cfg auth_key remote_addr h = (
  rw (h, authenticate)
      (decide_authorized_only (user_of_key sha256_hex cfg auth_key) auth_key remote_addr),
  get_user_id-granted_params (user_of_key sha256_hex cfg auth_key) auth_key remote_addr,
  get_auth_key-granted_params (user_of_key sha256_hex cfg auth_key) auth_key remote_addr,
)

-- A type that is none of the constants lets everyone in.
pub authenticate_other :
    (sha256_hex : String → String) (cfg : Config) (n : ℤ) (auth_key remote_addr : String)
    → cfg.authorization_type ≡ found (other_type n)
    → let user_id = user_of_key sha256_hex cfg auth_key in
      authenticate sha256_hex cfg auth_key remote_addr
      ≡ granted (user_id, granted_params user_id auth_key remote_addr)
unfolding authenticate decide_access
authenticate_other sha256_hex cfg n auth_key remote_addr h = rw h (ground arith)

session_for_known :
    (sha256_hex : String → String) (cfg : Config) (m : Manager) (s : ServerSession) (r : Request)
    (allow_create : Bool) (random_id : String) (now : ℕ)
    → r.session_id ≢ ""
    → get_session m r.session_id ≡ some s
    → session_for sha256_hex cfg m r allow_create random_id now ≡ (m, granted s)
unfolding session_for
session_for_known sha256_hex cfg m s r allow_create random_id now h k =
    rw (str_ne r.session_id "" h, k)

-- After a session was created for a user with a name, a request whose session identifier is that
-- name gets this session, and the manager stays as it is, whatever the key of the request, whatever
-- the configuration, and whether or not a session may be created.
session_for_user_name :
    (sha256_hex : String → String) (cfg : Config) (m : Manager) (user_id id random_id : String)
    (params : SessionParams) (now later : ℕ) (r : Request) (allow_create : Bool)
    (random_id' : String)
    → user_id ≢ ""
    → r.session_id ≡ user_id
    → let (m', s) = create_session m user_id id params random_id now in
      session_for sha256_hex cfg m' r allow_create random_id' later ≡ (m', granted s)
session_for_user_name sha256_hex cfg m user_id id random_id params now later r allow_create
      random_id' h k =
    session_for_known sha256_hex cfg (create_session m user_id id params random_id now).0
      (create_session m user_id id params random_id now).1 r allow_create random_id' later
      (λ e. h (sym k ∙ e))
      (ap (get_session (create_session m user_id id params random_id now).0) k
        ∙ (create_session_identity m user_id id random_id params now h).2)
