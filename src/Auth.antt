-- ===== src/Auth.antt =====
-- Who gets a session: `Authenticate` of server/transport/authentication.go, and `getSession` of
-- server/transport/transport.go. `sha256_hex` is SHA-256 in hexadecimal, `random_id` what
-- `RandomID` draws. A request is read by its parts: the session identifier that the caller took
-- from it, its credential, its remote address and its headers.
pub mod Access
pub mod Keys
pub mod Examples
use gate4ai.Prelude.{ℕ, Bool, not, ◌&&◌, Option, none, some, String, ◌==◌, arith, if◌then◌else◌}
use gate4ai.Dict
use gate4ai.Dict.{Dict}
use gate4ai.Jsonrpc.{GoError, plain}
use gate4ai.Config.{
  Config, AuthorizationType, Lookup, found, not_found, fails, hash_api_key,
  is_authorized_users_only,
}
use gate4ai.Manager.{Manager, ServerSession, SessionParams, no_params, get_session, create_session}

abbrev pub user_id_key : String
user_id_key = "authenticator_user_id"

abbrev pub auth_key_key : String
auth_key_key = "authenticator_auth_key"

abbrev pub remote_addr_key : String
remote_addr_key = "authenticator_remote_addr"

store : SessionParams → String → String → SessionParams
store p key v = record p { texts = Dict.put p.texts key v }

unfoldable pub save_user_id : SessionParams → String → SessionParams
unfolding store
save_user_id p user_id = store p user_id_key user_id

unfoldable pub save_auth_key : SessionParams → String → SessionParams
unfolding store
save_auth_key p auth_key = store p auth_key_key auth_key

unfoldable pub save_remote_addr : SessionParams → String → SessionParams
unfolding store
save_remote_addr p remote_addr = store p remote_addr_key remote_addr

text_or_empty : Option String → String
text_or_empty none = ""
text_or_empty (some s) = s

unfoldable pub get_user_id : SessionParams → String
unfolding text_or_empty
get_user_id p = text_or_empty (Dict.get p.texts user_id_key)

unfoldable pub get_auth_key : SessionParams → String
unfolding text_or_empty
get_auth_key p = text_or_empty (Dict.get p.texts auth_key_key)

unfoldable pub get_remote_addr : SessionParams → String
unfolding text_or_empty
get_remote_addr p = text_or_empty (Dict.get p.texts remote_addr_key)

-- Why a session is refused: `ErrSessionNotFound` or another error of the authenticator, wrapped,
-- or no identifier where one is needed.
pub data Refusal : Type 0 where
  session_not_found session_id_required : Refusal
  config_failed : GoError → Refusal

pub data Granted (A : Type 0) : Type 0 where
  granted : A → Granted A
  refused : Refusal → Granted A

-- An unknown key, or a failed lookup, leaves the user empty.
user_of : Lookup String → String
user_of (found user_id) = user_id
user_of not_found = ""
user_of (fails e) = ""

-- The user that a key stands for.
unfoldable pub user_of_key : (String → String) → Config → String → String
unfolding user_of
user_of_key sha256_hex cfg auth_key =
    if auth_key == ""
    then ""
    else user_of (cfg.get_user_id_by_key_hash (hash_api_key sha256_hex auth_key))

unfoldable pub initial_params : String → SessionParams
unfolding save_remote_addr
initial_params remote_addr =
    if remote_addr == "" then no_params else save_remote_addr no_params remote_addr

decide_access :
    Lookup AuthorizationType → String → String → String → Granted (String × SessionParams)
unfolding initial_params save_auth_key save_user_id
decide_access (fails e) user_id auth_key remote_addr = refused (config_failed e)
decide_access not_found user_id auth_key remote_addr = refused (config_failed (plain "not found"))
decide_access (found type) user_id auth_key remote_addr =
    if user_id == "" && is_authorized_users_only type
    then refused session_not_found
    else granted
        (user_id, save_user_id (save_auth_key (initial_params remote_addr) auth_key) user_id)

unfoldable pub authenticate :
    (String → String) → Config → String → String → Granted (String × SessionParams)
unfolding decide_access user_of_key
authenticate sha256_hex cfg auth_key remote_addr =
    decide_access cfg.authorization_type (user_of_key sha256_hex cfg auth_key) auth_key remote_addr

pub record Request : Type 0 where
  pub session_id : String
  pub auth_key : String
  pub remote_addr : String
  pub headers : Dict String

created :
    Manager
    → Request
    → String
    → ℕ
    → Granted (String × SessionParams)
    → Manager × Granted ServerSession
created m r random_id now (refused why) = (m, refused why)
created m r random_id now (granted (user_id, params)) =
    let (m', s) =
      create_session m user_id r.session_id (record params { received_headers = some r.headers })
        random_id now in
    (m', granted s)

create_or_refuse :
    (String → String)
    → Config
    → Manager
    → Request
    → Bool
    → String
    → ℕ
    → Manager × Granted ServerSession
unfolding created
create_or_refuse sha256_hex cfg m r allow_create random_id now =
    if allow_create
    then created m r random_id now (authenticate sha256_hex cfg r.auth_key r.remote_addr)
    else (m, refused session_id_required)

-- `getSession`: the session that the identifier names, or else a new one, where that is allowed.
unfoldable pub session_for :
    (String → String)
    → Config
    → Manager
    → Request
    → Bool
    → String
    → ℕ
    → Manager × Granted ServerSession
unfolding create_or_refuse
session_for sha256_hex cfg m r allow_create random_id now =
    let fresh = create_or_refuse sha256_hex cfg m r allow_create random_id now in
    if r.session_id == ""
    then fresh
    else elim (get_session m r.session_id) [ some s ↦ (m, granted s) | none ↦ fresh ]
