-- ===== src/Config.antt =====
-- Configuration: what the server and the gateway ask of `IConfig` (shared/config/interface.go), and
-- the in-memory implementation of shared/config/internal.go. SHA-256 in hexadecimal is an argument,
-- `sha256_hex`.
pub mod Database
pub mod Internal
pub mod Yaml
use gate4ai.Prelude.{ℤ, Bool, true, false, List, String, ◌==◌, arith, if◌then◌else◌}
use gate4ai.Jsonrpc.{GoError}
use gate4ai.Dict.{Dict}

-- The type is an `int`: `other_type` is a value that is none of the three constants.
pub data AuthorizationType : Type 0 where
  authorized_users_only not_authorized_to_marked_methods not_authorized_everywhere :
      AuthorizationType
  other_type : ℤ → AuthorizationType

abbrev pub is_authorized_users_only : AuthorizationType → Bool
is_authorized_users_only authorized_users_only = true
is_authorized_users_only _ = false

-- A value, the error `ErrNotFound`, or another error.
pub data Lookup (A : Type 0) : Type 0 where
  found : A → Lookup A
  not_found : Lookup A
  fails : GoError → Lookup A

pub record Backend : Type 0 where
  pub url : String
  pub bearer : String

-- The methods of `IConfig` that the modelled code calls.
pub record Config : Type 0 where
  pub authorization_type : Lookup AuthorizationType
  pub get_user_id_by_key_hash : String → Lookup String
  pub get_user_subscribes : String → Lookup (List String)
  pub get_backend_by_slug : String → Lookup Backend
  pub get_server_headers : String → Lookup (Dict String)
  pub get_subscription_headers : String → String → Lookup (Dict String)

unfoldable pub hash_api_key : (String → String) → String → String
hash_api_key sha256_hex key = if key == "" then "" else sha256_hex key
