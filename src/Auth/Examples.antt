-- ===== src/Auth/Examples.antt =====
-- A configuration with one user, and requests to it.
use gate4ai.Prelude.{◌≡◌, ◌≢◌, ◌⊎◌, refl, [], ◌∷◌, String, ◌<>◌}
use gate4ai.Config.{Config}
use gate4ai.Config.Internal.{new_internal_config, to_config}
use gate4ai.Auth.{none, Request, granted, refused, session_not_found, authenticate}
use gate4ai.Auth.Keys.{authenticate-IsKey}
use gate4ai.Config.Yaml.{
  YamlFile, YamlConfig, initial_config, yaml_to_config, update, parsed, authorization_of,
}
use gate4ai.Config.Yaml.Keys.{IsKey, IsKeyOf}
use gate4ai.Auth.Access.{granted_params}

-- A stand-in for the digest of a key.
abbrev digest : String → String
digest s = "h:" <> s

abbrev config : Config
config = to_config (record new_internal_config { user_key_hashes = ("h:k1", "ann") ∷ [] })

abbrev anonymous : Request
anonymous = record { session_id = "ann"; auth_key = ""; remote_addr = "10.6.6.6"; headers = [] }

abbrev no_config : YamlConfig
no_config = initial_config

abbrev file : YamlFile
file = record {
  address = ":8080";
  name = "gate";
  version = "1";
  log_level = "info";
  info_handler = "";
  frontend_address = "";
  authorization = "users_only";
  ssl = no_config.ssl;
  card = none;
  users = ("ann", record { keys = "h1" ∷ []; subscribes = [] }) ∷ [];
  backends = [];
}

abbrev yaml : Config
yaml = yaml_to_config (update (λ s. s) no_config (parsed file)).0

authenticate-IsKey_example :
    (IsKey "h1" file.users
      × ((u : String) × IsKeyOf u "h1" file.users
          × (((u ≡ "") × (authenticate (λ k. "h1") yaml "k" "" ≡ refused session_not_found))
              ⊎ ((u ≢ "")
                  × (authenticate (λ k. "h1") yaml "k" ""
                      ≡ granted (u, granted_params u "k" ""))))))
    ⊎ ((¬ IsKey "h1" file.users)
        × (authenticate (λ k. "h1") yaml "k" "" ≡ refused session_not_found))
unfolding authorization_of
authenticate-IsKey_example =
    authenticate-IsKey (λ s. s) (λ k. "h1") no_config file "k" "" (λ e. absurd (cc))
      (λ e. absurd (cc)) refl
