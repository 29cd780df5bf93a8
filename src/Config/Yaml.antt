-- ===== src/Config/Yaml.antt =====
-- `YamlConfig` of shared/config/yaml.go: the file as the YAML library reads it, `Update`, and the
-- getters. `to_lower` is `strings.ToLower`. A Go map is a `Dict`, in the order of the iteration;
-- copies of maps and slices are the values themselves.
pub mod Keys
use gate4ai.Dict
use gate4ai.Dict.{Dict}
use gate4ai.Prelude.{
  ◌-◌, ◌/◌, ◌<◌, ◌⊎◌, inl, inr, Bool, false, not, Option, none, some, List, [], ◌∷◌, String, ◌<>◌,
  ◌==◌, arith, if◌then◌else◌,
}
use gate4ai.Config.{
  Config, AuthorizationType, Lookup, found, not_found, Backend, authorized_users_only,
  not_authorized_to_marked_methods, not_authorized_everywhere,
}
use gate4ai.Jsonrpc.{GoError, plain, error_text}

pub record SslFile : Type 0 where
  pub enabled : Bool
  pub mode : String
  pub cert_file : String
  pub key_file : String
  pub acme_domains : List String
  pub acme_email : String
  pub acme_cache_dir : String

pub record UserFile : Type 0 where
  pub keys : List String
  pub subscribes : List String

-- `card` is the JSON of the agent card but for its URL.
pub record YamlFile : Type 0 where
  pub address : String
  pub name : String
  pub version : String
  pub log_level : String
  pub info_handler : String
  pub frontend_address : String
  pub authorization : String
  pub ssl : SslFile
  pub card : Option String
  pub users : Dict UserFile
  pub backends : Dict Backend

pub record YamlConfig : Type 0 where
  pub server_address : String
  pub server_name : String
  pub server_version : String
  pub log_level : String
  pub discovering_handler_path_value : String
  pub frontend_address_value : String
  pub authorization_type : AuthorizationType
  pub user_key_hashes : Dict String
  pub user_params : Dict (Dict String)
  pub user_subscribes : Dict (List String)
  pub backends : Dict Backend
  pub ssl : SslFile
  pub card : Option String

abbrev default_cache_dir : String
default_cache_dir = "./.autocert-cache"

unfoldable pub initial_config : YamlConfig
initial_config = record {
  server_address = "";
  server_name = "";
  server_version = "";
  log_level = "";
  discovering_handler_path_value = "";
  frontend_address_value = "";
  authorization_type = authorized_users_only;
  user_key_hashes = [];
  user_params = [];
  user_subscribes = [];
  backends = [];
  ssl = record {
    enabled = false;
    mode = "manual";
    cert_file = "";
    key_file = "";
    acme_domains = [];
    acme_email = "";
    acme_cache_dir = default_cache_dir;
  };
  card = none;
}

-- The inner loop over the keys of a user.
unfoldable pub put_keys : Dict String → String → List String → Dict String
put_keys hashes user_id [] = hashes
put_keys hashes user_id (key ∷ keys) = put_keys (Dict.put hashes key user_id) user_id keys

unfoldable pub key_hashes : Dict String → Dict UserFile → Dict String
key_hashes hashes [] = hashes
key_hashes hashes ((user_id, user) ∷ users) = key_hashes (put_keys hashes user_id user.keys) users

put_subscribes : Dict (List String) → String → List String → Dict (List String)
put_subscribes subscribes user_id [] = subscribes
put_subscribes subscribes user_id (slug ∷ slugs) = Dict.put subscribes user_id (slug ∷ slugs)

unfoldable pub subscribes_of : Dict (List String) → Dict UserFile → Dict (List String)
unfolding put_subscribes
subscribes_of subscribes [] = subscribes
subscribes_of subscribes ((user_id, user) ∷ users) =
    subscribes_of (put_subscribes subscribes user_id user.subscribes) users

unfoldable pub backends_of : Dict Backend → Dict Backend → Dict Backend
backends_of backends [] = backends
backends_of backends ((slug, b) ∷ more) = backends_of (Dict.put backends slug b) more

-- What `os.ReadFile` and `yaml.Unmarshal` give.
pub data YamlRead : Type 0 where
  unreadable unparsed : GoError → YamlRead
  parsed : YamlFile → YamlRead

module _ (to_lower : String → String) where
  unfoldable pub authorization_of : String → AuthorizationType
  authorization_of name =
      let lowered = to_lower name in
      if lowered == "marked_methods"
      then not_authorized_to_marked_methods
      else if lowered == "none"
      then not_authorized_everywhere
      else authorized_users_only

  ssl_of : SslFile → SslFile
  ssl_of f = record f {
    mode = if to_lower f.mode == "acme" then "acme" else "manual";
    acme_cache_dir = if f.acme_cache_dir == "" then default_cache_dir else f.acme_cache_dir;
  }

  -- `Update`: the configuration after it, and its error.
  unfoldable pub update : YamlConfig → YamlRead → YamlConfig × Option GoError
  unfolding ssl_of authorization_of key_hashes subscribes_of backends_of
  update c (unreadable e) = (c, some (plain ("read config file: " <> error_text e)))
  update c (unparsed e) = (c, some (plain ("parse YAML: " <> error_text e)))
  update c (parsed f) = (
    record {
      server_address = f.address;
      server_name = f.name;
      server_version = f.version;
      log_level = f.log_level;
      discovering_handler_path_value = f.info_handler;
      frontend_address_value = f.frontend_address;
      authorization_type = authorization_of f.authorization;
      user_key_hashes = key_hashes [] f.users;
      user_params = c.user_params;
      user_subscribes = subscribes_of [] f.users;
      backends = backends_of [] f.backends;
      ssl = ssl_of f.ssl;
      card = f.card;
    },
    none,
  )

  unfoldable pub new_yaml_config : YamlRead → YamlConfig ⊎ GoError
  unfolding update initial_config
  new_yaml_config r =
      let u = update initial_config r in elim u.1 [ none ↦ inl u.0 | some e ↦ inr e ]

lookup_or_not_found : {A : Type 0} → Option A → Lookup A
lookup_or_not_found none = not_found
lookup_or_not_found (some a) = found a

list_or_empty {ℓ} : {A : Type ℓ} → Option (List A) → List A
list_or_empty none = []
list_or_empty (some l) = l

unfoldable pub user_id_by_key_hash : YamlConfig → String → Lookup String
unfolding lookup_or_not_found
user_id_by_key_hash c key_hash =
    if key_hash == "" then found "" else lookup_or_not_found (Dict.get c.user_key_hashes key_hash)

unfoldable pub params_of_user : YamlConfig → String → Dict String
unfolding list_or_empty
params_of_user c user_id = list_or_empty (Dict.get c.user_params user_id)

unfoldable pub subscribes_of_user : YamlConfig → String → Lookup (List String)
unfolding list_or_empty
subscribes_of_user c user_id = found (list_or_empty (Dict.get c.user_subscribes user_id))

unfoldable pub backend_by_slug : YamlConfig → String → Lookup Backend
unfolding lookup_or_not_found
backend_by_slug c slug = lookup_or_not_found (Dict.get c.backends slug)

-- `GetA2AAgentCard`: the card with the URL, or an error.
unfoldable pub agent_card : YamlConfig → String → (String × String) ⊎ GoError
agent_card c url = elim c.card [
  | none ↦ inr (plain "A2A configuration not present in YAML")
  | some card ↦ inl (card, url)
]

-- `*YamlConfig` as an `IConfig`. It has no headers.
abbrev pub yaml_to_config : YamlConfig → Config
yaml_to_config c = record {
  authorization_type = found c.authorization_type;
  get_user_id_by_key_hash = user_id_by_key_hash c;
  get_user_subscribes = subscribes_of_user c;
  get_backend_by_slug = backend_by_slug c;
  get_server_headers = λ slug. found [];
  get_subscription_headers = λ user_id slug. found [];
}
