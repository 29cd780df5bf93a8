-- ===== src/Config/Internal.antt =====
-- `InternalConfig` of shared/config/internal.go: users, backends, subscriptions and headers.
-- A Go map is a `Dict`; copies of maps and slices are the values themselves.
use gate4ai.Prelude.{
  ◌≡◌, Option, none, some, List, [], String, ◌<>◌, ◌==◌, eq_iff, arith, if◌then◌else◌,
}
use gate4ai.Dict
use gate4ai.Dict.{Dict}
use gate4ai.Config.{
  Config, AuthorizationType, Lookup, found, not_found, Backend, authorized_users_only,
}

pub record InternalConfig : Type 0 where
  pub authorization_type_value : AuthorizationType
  pub user_key_hashes : Dict String
  pub user_params : Dict (Dict String)
  pub user_subscribes : Dict (List String)
  pub backends : Dict Backend
  pub server_headers : Dict (Dict String)
  pub subscription_headers : Dict (Dict String)

unfoldable pub new_internal_config : InternalConfig
new_internal_config = record {
  authorization_type_value = authorized_users_only;
  user_key_hashes = [];
  user_params = [];
  user_subscribes = [];
  backends = [];
  server_headers = [];
  subscription_headers = [];
}

or_empty {ℓ} : {A : Type ℓ} → Option (List A) → List A
or_empty none = []
or_empty (some m) = m

or_not_found : {A : Type 0} → Option A → Lookup A
or_not_found none = not_found
or_not_found (some a) = found a

unfoldable pub get_user_id_by_key_hash : InternalConfig → String → Lookup String
unfolding or_not_found
get_user_id_by_key_hash c key_hash =
    if key_hash == "" then found "" else or_not_found (Dict.get c.user_key_hashes key_hash)

unfoldable pub get_user_params : InternalConfig → String → Dict String
unfolding or_empty
get_user_params c user_id = or_empty (Dict.get c.user_params user_id)

unfoldable pub set_user_param : InternalConfig → String → String → String → InternalConfig
unfolding or_empty
set_user_param c user_id name v = record c {
  user_params =
      Dict.put c.user_params user_id (Dict.put (or_empty (Dict.get c.user_params user_id)) name v);
}

unfoldable pub get_user_subscribes : InternalConfig → String → Lookup (List String)
unfolding or_empty
get_user_subscribes c user_id = found (or_empty (Dict.get c.user_subscribes user_id))

unfoldable pub set_user_subscribes : InternalConfig → String → List String → InternalConfig
set_user_subscribes c user_id servers = record c {
  user_subscribes = Dict.put c.user_subscribes user_id servers;
}

unfoldable pub get_backend_by_slug : InternalConfig → String → Lookup Backend
unfolding or_not_found
get_backend_by_slug c slug = or_not_found (Dict.get c.backends slug)

unfoldable pub set_backend : InternalConfig → String → String → String → InternalConfig
set_backend c slug url bearer = record c {
  backends = Dict.put c.backends slug (record { url = url; bearer = bearer });
}

unfoldable pub get_server_headers : InternalConfig → String → Lookup (Dict String)
unfolding or_empty
get_server_headers c slug = found (or_empty (Dict.get c.server_headers slug))

unfoldable pub set_server_headers : InternalConfig → String → Dict String → InternalConfig
set_server_headers c slug headers = record c {
  server_headers = Dict.put c.server_headers slug headers;
}

unfoldable pub subscription_key : String → String → String
subscription_key user_id slug = user_id <> ":" <> slug

unfoldable pub get_subscription_headers : InternalConfig → String → String → Lookup (Dict String)
unfolding or_empty subscription_key
get_subscription_headers c user_id slug =
    found (or_empty (Dict.get c.subscription_headers (subscription_key user_id slug)))

unfoldable pub set_subscription_headers :
    InternalConfig → String → String → Dict String → InternalConfig
unfolding subscription_key
set_subscription_headers c user_id slug headers = record c {
  subscription_headers = Dict.put c.subscription_headers (subscription_key user_id slug) headers;
}

-- `*InternalConfig` as an `IConfig`.
abbrev pub to_config : InternalConfig → Config
to_config c = record {
  authorization_type = found c.authorization_type_value;
  get_user_id_by_key_hash = get_user_id_by_key_hash c;
  get_user_subscribes = get_user_subscribes c;
  get_backend_by_slug = get_backend_by_slug c;
  get_server_headers = get_server_headers c;
  get_subscription_headers = get_subscription_headers c;
}

-- Headers set for one user and server are read back, and so they are under every other pair whose
-- joined key, user:server, is the same text.
get-set_subscription_headers :
    (c : InternalConfig) (user_id slug other_user other_slug : String) (headers : Dict String)
    → subscription_key user_id slug ≡ subscription_key other_user other_slug
    → get_subscription_headers
        (set_subscription_headers c user_id slug headers)
        other_user
        other_slug
      ≡ found headers
unfolding get_subscription_headers set_subscription_headers
get-set_subscription_headers c user_id slug other_user other_slug headers h = ground (
  arith,
  Dict.get-put c.subscription_headers (subscription_key user_id slug)
      (subscription_key other_user other_slug) headers,
  eq_iff (subscription_key user_id slug) (subscription_key other_user other_slug),
)
