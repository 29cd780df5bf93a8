-- ===== src/Config/Database/Settings/AnyNumber.antt =====
-- The setting `gateway_authorization_type` of shared/config/database.go as a number, and what
-- `Authenticate` makes of it.
use gate4ai.Prelude.{◌≡◌, ◌⊎◌, refl, ap, Option, none, String, ℤ}
use gate4ai.Auth.{authenticate, granted, user_of_key}
use gate4ai.Auth.Access.{granted_params, authenticate_other}
use gate4ai.Config.{found, other_type}
use gate4ai.Config.Database.{Database}
use gate4ai.Config.Database.Settings.{
  JsonValue, number, get_setting_json, authorization_type, database_to_config, type_of, converted,
  type_of_int,
}
use gate4ai.Dict.{Dict}
use gate4ai.Jsonrpc.{GoError}

converted-none : (n : ℤ) → type_of_int n ≡ none → converted n ≡ other_type n
unfolding converted
converted-none n k = rw (k, converted) refl

authorization_type-converted :
    (decode : String → JsonValue ⊎ GoError) (to_lower : String → String)
    (scan_int : String → Option ℤ) (db : Database) (n : ℤ)
    → get_setting_json decode db "gateway_authorization_type" ≡ found (number n)
    → type_of_int n ≡ none
    → authorization_type decode to_lower scan_int db ≡ found (other_type n)
unfolding authorization_type type_of
authorization_type-converted decode to_lower scan_int db n h k =
    rw h (ap found (converted-none n k))

-- If the setting is a number that is none of the three authorization types, every client is let in,
-- whatever its key, also without one, as the user that the key stands for, or as nobody.
pub authenticate_any_number :
    (decode : String → JsonValue ⊎ GoError) (to_lower : String → String)
    (scan_int : String → Option ℤ) (decode_headers : String → Dict String ⊎ GoError)
    (sha256_hex : String → String) (db : Database) (n : ℤ) (auth_key remote_addr : String)
    → get_setting_json decode db "gateway_authorization_type" ≡ found (number n)
    → type_of_int n ≡ none
    → let cfg = database_to_config decode to_lower scan_int decode_headers db in
      let user_id = user_of_key sha256_hex cfg auth_key in
      authenticate sha256_hex cfg auth_key remote_addr
      ≡ granted (user_id, granted_params user_id auth_key remote_addr)
unfolding database_to_config
authenticate_any_number decode to_lower scan_int decode_headers sha256_hex db n auth_key remote_addr
      h k =
    authenticate_other sha256_hex (database_to_config decode to_lower scan_int decode_headers db) n
      auth_key remote_addr (authorization_type-converted decode to_lower scan_int db n h k)
