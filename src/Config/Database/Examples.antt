-- ===== src/Config/Database/Examples.antt =====
-- Runs of shared/config/database.go on a small database.
use mathlib.Core.List.{Memᴰ}
use gate4ai.Prelude.{
  ◌≡◌, ◌↔◌, ◌⊎◌, inl, inr, refl, Option, none, some, [], ◌∷◌, String, ◌==◌, if◌then◌else◌, ℤ, pos,
}
use gate4ai.Auth.{authenticate, granted}
use gate4ai.Auth.Access.{granted_params}
use gate4ai.Config.{found}
use gate4ai.Config.Database.{
  Database, ServerRow, SubscriptionRow, UserRow, get_user_subscribes, get_user_params,
}
use gate4ai.Config.Database.Entitled.{Entitled, get_user_subscribes-Entitled}
use gate4ai.Config.Database.Settings.{
  JsonValue, number, text, get_setting_json, database_to_config, type_of_int, value,
}
use gate4ai.Config.Database.Settings.AnyNumber.{authenticate_any_number}
use gate4ai.Config.Database.Getters.{listen_addr}
use gate4ai.Dict.{Dict}
use gate4ai.Jsonrpc.{GoError, plain}

abbrev server_row : String → String → String → ServerRow
server_row id slug status = record {
  id = id;
  slug = slug;
  status = status;
  server_url = some "http://h";
  headers = none;
}

abbrev subscription_row : String → String → String → SubscriptionRow
subscription_row user_id server_id status = record {
  user_id = user_id;
  server_id = server_id;
  status = status;
  header_values = some "{}";
}

abbrev user_row : String → String → UserRow
user_row id role = record {
  id = id;
  name = none;
  status = some "ACTIVE";
  role = some role;
  company = none;
}

-- u owns the draft server a, and is subscribed to b and, no longer, to c.
abbrev sample : Database
sample = record {
  tables = record {
    servers =
        server_row "1" "a" "DRAFT" ∷ server_row "2" "b" "ACTIVE" ∷ server_row "3" "c" "ACTIVE" ∷ [];
    owners =
        record { server_id = "1"; user_id = "u" } ∷ record { server_id = "2"; user_id = "u" } ∷ [];
    subscriptions = subscription_row "u" "2" "ACTIVE" ∷ subscription_row "u" "3" "BLOCKED" ∷ [];
    api_keys = record { user_id = "u"; key_hash = "h" } ∷ [];
    users = user_row "u" "USER" ∷ user_row "root" "ADMIN" ∷ [];
    settings = record { key = "gateway_authorization_type"; value = some "7" } ∷ [];
  };
  open_error = none;
  fault = λ q. none;
}

-- A decoder that knows one number, and takes the rest as strings.
abbrev decode : String → JsonValue ⊎ GoError
decode s = if s == "7" then inl (number (pos 7)) else inl (text s)

abbrev decode_headers : String → Dict String ⊎ GoError
decode_headers s = if s == "{}" then inl [] else inr (plain "no headers")

same_text : String → String
same_text s = s

no_int : String → Option ℤ
no_int s = none

user_slugs_test : get_user_subscribes sample "u" ≡ found ("a" ∷ "b" ∷ [])
unfolding get_user_subscribes gate4ai.Dict.get gate4ai.Dict.put gate4ai.Config.Database.user_slugs
user_slugs_test = refl

staff_slugs_test : get_user_subscribes sample "root" ≡ found ("b" ∷ "c" ∷ [])
unfolding get_user_subscribes gate4ai.Dict.get gate4ai.Dict.put gate4ai.Config.Database.active_slugs
staff_slugs_test = refl

listen_addr_test : listen_addr decode sample ≡ value ":8080"
unfolding listen_addr
listen_addr_test = refl

sample_params : get_user_params sample "u" ≡ found (("status", "ACTIVE") ∷ ("role", "USER") ∷ [])
unfolding get_user_params gate4ai.Dict.put
sample_params = refl

get_user_subscribes-Entitled_example :
    Memᴰ {A = String} "b" ("a" ∷ "b" ∷ [])
    ↔ Entitled sample.tables (("status", "ACTIVE") ∷ ("role", "USER") ∷ []) "u" "b"
get_user_subscribes-Entitled_example =
    get_user_subscribes-Entitled sample "u" "b" (("status", "ACTIVE") ∷ ("role", "USER") ∷ [])
      ("a" ∷ "b" ∷ []) sample_params user_slugs_test

sample_setting :
    get_setting_json decode sample "gateway_authorization_type" ≡ found (number (pos 7))
unfolding get_setting_json
sample_setting = refl

seven_is_none : type_of_int (pos 7) ≡ none
unfolding type_of_int
seven_is_none = refl

authenticate_any_number_example :
    authenticate same_text (database_to_config decode same_text no_int decode_headers sample) "" "r"
    ≡ granted ("", granted_params "" "" "r")
unfolding gate4ai.Auth.user_of_key
authenticate_any_number_example =
    authenticate_any_number decode same_text no_int decode_headers same_text sample (pos 7) "" "r"
      sample_setting seven_is_none
