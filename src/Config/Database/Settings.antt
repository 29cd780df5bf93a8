-- ===== src/Config/Database/Settings.antt =====
-- The settings of shared/config/database.go, `AuthorizationType`, `GetA2AAgentCard`, and the whole as
-- an `IConfig`. `json.Unmarshal` is an argument, `decode`, and so are `strings.ToLower`, `to_lower`,
-- and `fmt.Sscanf` with %d, `scan_int`.
pub mod AnyNumber
use gate4ai.Prelude.{
  ℕ, zero, suc, ◌-◌, ◌<◌, ◌⊎◌, inl, inr, Bool, not, ◌||◌, Option, none, some, List, [], ◌∷◌, String,
  ◌<>◌, ◌==◌, arith, if◌then◌else◌, ℤ, pos, show_ℕ, show_ℤ,
}
use gate4ai.Dict.{Dict}
use gate4ai.Config.{
  Config, AuthorizationType, Lookup, found, not_found, fails, authorized_users_only,
  not_authorized_to_marked_methods, not_authorized_everywhere, other_type,
}
use gate4ai.Config.Database
use gate4ai.Config.Database.{
  Database, query_row, select, setting_query, wrapped, get_user_id_by_key_hash, get_user_subscribes,
  get_backend_by_slug,
}
use gate4ai.Config.Database.Headers.{get_server_headers, get_subscription_headers}
use gate4ai.Jsonrpc.{GoError, plain}

-- An element of a JSON array: a string, or a value of another type.
pub data Element : Type 0 where
  string_element : String → Element
  other_element : Element

-- What `json.Unmarshal` gives as an `interface{}`. A number is given by `int(v)`; another value by
-- the name of its type.
pub data JsonValue : Type 0 where
  text : String → JsonValue
  number : ℤ → JsonValue
  boolean : Bool → JsonValue
  array : List Element → JsonValue
  other_value : String → JsonValue

type_name : JsonValue → String
type_name (text s) = "string"
type_name (number n) = "float64"
type_name (boolean b) = "bool"
type_name (array xs) = "[]interface {}"
type_name (other_value name) = name

-- A setting that may be missing: its value, or an error.
pub data Setting (A : Type 0) : Type 0 where
  value : A → Setting A
  invalid : A → GoError → Setting A

of_column : Lookup (Option String) → Lookup String
of_column not_found = not_found
of_column (fails e) = fails e
of_column (found none) = not_found
of_column (found (some raw)) = found raw

unfoldable pub get_setting_raw : Database → String → Lookup String
unfolding query_row select of_column
get_setting_raw db key = of_column (
    query_row db setting_query ("query setting '" <> key <> "'")
      (select (λ r. r.key == key) (λ r. r.value) db.tables.settings))

unmarshalled : String → JsonValue ⊎ GoError → Lookup JsonValue
unfolding wrapped
unmarshalled key (inl v) = found v
unmarshalled key (inr e) = fails (wrapped ("unmarshal setting '" <> key <> "'") e)

string_of : String → String → Lookup JsonValue → Setting String
unfolding show_ℤ type_name
string_of key default not_found = value default
string_of key default (fails e) = invalid default e
string_of key default (found (text s)) = value s
string_of key default (found (number n)) = value (show_ℤ n)
string_of key default (found v) =
    invalid default (plain ("setting '" <> key <> "' has unexpected type " <> type_name v))

bool_of : String → Bool → Lookup JsonValue → Setting Bool
unfolding type_name
bool_of key default not_found = value default
bool_of key default (fails e) = invalid default e
bool_of key default (found (boolean b)) = value b
bool_of key default (found v) =
    invalid default
      (plain ("setting '" <> key <> "' is not a boolean (type: " <> type_name v <> ")"))

-- The loop over the elements: the strings, or the index of the first that is none.
elements_from : ℕ → List Element → List String ⊎ ℕ
elements_from i [] = inl []
elements_from i (other_element ∷ more) = inr i
elements_from i (string_element s ∷ more) = elim (elements_from (suc i) more) [
  | inl strings ↦ inl (s ∷ strings)
  | inr j ↦ inr j
]

slice_of_elements : String → List String → List String ⊎ ℕ → Setting (List String)
unfolding show_ℕ
slice_of_elements key default (inl strings) = value strings
slice_of_elements key default (inr i) =
    invalid default
      (plain ("non-string value at index " <> show_ℕ i <> " in setting '" <> key <> "'"))

slice_of : String → List String → Lookup JsonValue → Setting (List String)
unfolding type_name slice_of_elements elements_from
slice_of key default not_found = value default
slice_of key default (fails e) = invalid default e
slice_of key default (found (array xs)) = slice_of_elements key default (elements_from 0 xs)
slice_of key default (found v) =
    invalid default (
      plain
        ("setting '" <> key <> "' is not a JSON array of strings (type: " <> type_name v <> ")"))

-- The integer that is scanned is taken if it is one of the three constants.
unfoldable pub type_of_int : ℤ → Option AuthorizationType
type_of_int (pos zero) = some authorized_users_only
type_of_int (pos (suc zero)) = some not_authorized_to_marked_methods
type_of_int (pos (suc (suc zero))) = some not_authorized_everywhere
type_of_int n = none

-- AuthorizationType(n)
unfoldable pub converted : ℤ → AuthorizationType
unfolding type_of_int
converted n = elim (type_of_int n) [ some t ↦ t | none ↦ other_type n ]

module _ (decode : String → JsonValue ⊎ GoError) where
  get_setting_json_of : String → Lookup String → Lookup JsonValue
  unfolding unmarshalled
  get_setting_json_of key not_found = not_found
  get_setting_json_of key (fails e) = fails e
  get_setting_json_of key (found raw) = unmarshalled key (decode raw)

  unfoldable pub get_setting_json : Database → String → Lookup JsonValue
  unfolding get_setting_raw get_setting_json_of
  get_setting_json db key = get_setting_json_of key (get_setting_raw db key)

  unfoldable pub get_setting_string : Database → String → String → Setting String
  unfolding get_setting_json string_of
  get_setting_string db key default = string_of key default (get_setting_json db key)

  unfoldable pub get_setting_bool : Database → String → Bool → Setting Bool
  unfolding get_setting_json bool_of
  get_setting_bool db key default = bool_of key default (get_setting_json db key)

  unfoldable pub get_setting_string_slice : Database → String → List String → Setting (List String)
  unfolding get_setting_json slice_of
  get_setting_string_slice db key default = slice_of key default (get_setting_json db key)

  module _ (to_lower : String → String) (scan_int : String → Option ℤ) where
    scanned : String → Option ℤ → Lookup AuthorizationType
    unfolding type_of_int
    scanned name none = fails (plain ("invalid authorization type string value: " <> name))
    scanned name (some n) = elim (type_of_int n) [
      | some t ↦ found t
      | none ↦ fails (plain ("invalid authorization type string value: " <> name))
    ]

    named_type : String → Lookup AuthorizationType
    unfolding scanned
    named_type name =
        let lower = to_lower name in
        if (lower == "authorizedusersonly") || (lower == "users_only")
        then found authorized_users_only
        else if (lower == "notauthorizedtomarkedmethods") || (lower == "marked_methods")
        then found not_authorized_to_marked_methods
        else if (lower == "notauthorizedeverywhere") || (lower == "none")
        then found not_authorized_everywhere
        else scanned name (scan_int name)

    type_of : Lookup JsonValue → Lookup AuthorizationType
    unfolding named_type converted type_name
    type_of not_found = found authorized_users_only
    type_of (fails e) = fails e
    type_of (found (number n)) = found (converted n)
    type_of (found (text name)) = named_type name
    type_of (found v) =
        fails (plain ("invalid authorization type format in database: " <> type_name v))

    unfoldable pub authorization_type : Database → Lookup AuthorizationType
    unfolding get_setting_json type_of
    authorization_type db = type_of (get_setting_json db "gateway_authorization_type")

    unfoldable pub database_to_config : (String → Dict String ⊎ GoError) → Database → Config
    unfolding authorization_type get_user_id_by_key_hash get_user_subscribes get_backend_by_slug
        get_server_headers get_subscription_headers
    database_to_config decode_headers db = record {
      authorization_type = authorization_type db;
      get_user_id_by_key_hash = get_user_id_by_key_hash db;
      get_user_subscribes = get_user_subscribes db;
      get_backend_by_slug = get_backend_by_slug db;
      get_server_headers = get_server_headers decode_headers db;
      get_subscription_headers = get_subscription_headers decode_headers db;
    }
