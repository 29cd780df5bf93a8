-- ===== src/Config/Database/Getters.antt =====
-- The getters of shared/config/database.go that read one setting, and `GetA2AAgentCard`.
use gate4ai.Prelude.{
  ◌⊎◌, inl, inr, Bool, false, ◌||◌, Option, none, some, List, [], ◌∷◌, String, ◌<>◌, ◌==◌,
  if◌then◌else◌, set,
}
use gate4ai.Config.Database.{Database}
use gate4ai.Config.Database.Settings.{
  JsonValue, Setting, value, invalid, get_setting_string, get_setting_bool,
  get_setting_string_slice,
}
use gate4ai.Jsonrpc.{GoError, plain, error_text}

module _ (decode : String → JsonValue ⊎ GoError) (db : Database) where
  unfoldable pub listen_addr : Setting String
  unfolding get_setting_string
  listen_addr = get_setting_string decode db "gateway_listen_address" ":8080"

  unfoldable pub server_name : Setting String
  unfolding get_setting_string
  server_name = get_setting_string decode db "gateway_server_name" "Gate4AI Gateway"

  unfoldable pub server_version : Setting String
  unfolding get_setting_string
  server_version = get_setting_string decode db "gateway_server_version" "1.0.0"

  unfoldable pub log_level : Setting String
  unfolding get_setting_string
  log_level = get_setting_string decode db "gateway_log_level" "info"

  unfoldable pub discovering_handler_path : Setting String
  unfolding get_setting_string
  discovering_handler_path = get_setting_string decode db "path_for_discovering_handler" ""

  unfoldable pub frontend_address_for_proxy : Setting String
  unfolding get_setting_string
  frontend_address_for_proxy =
      get_setting_string decode db "url_how_gateway_proxy_connect_to_the_portal"
        "http://portal:3000"

  unfoldable pub ssl_enabled : Setting Bool
  unfolding get_setting_bool
  ssl_enabled = get_setting_bool decode db "gateway_ssl_enabled" false

  unfoldable pub ssl_mode : Setting String
  unfolding get_setting_string
  ssl_mode = get_setting_string decode db "gateway_ssl_mode" "manual"

  unfoldable pub ssl_cert_file : Setting String
  unfolding get_setting_string
  ssl_cert_file = get_setting_string decode db "gateway_ssl_cert_file" ""

  unfoldable pub ssl_key_file : Setting String
  unfolding get_setting_string
  ssl_key_file = get_setting_string decode db "gateway_ssl_key_file" ""

  unfoldable pub ssl_acme_email : Setting String
  unfolding get_setting_string
  ssl_acme_email = get_setting_string decode db "gateway_ssl_acme_email" ""

  unfoldable pub ssl_acme_cache_dir : Setting String
  unfolding get_setting_string
  ssl_acme_cache_dir = get_setting_string decode db "gateway_ssl_acme_cache_dir" "./.autocert-cache"

  unfoldable pub ssl_acme_domains : Setting (List String)
  unfolding get_setting_string_slice
  ssl_acme_domains = get_setting_string_slice decode db "gateway_ssl_acme_domains" []

pub record Provider : Type 0 where
  pub organization : String
  pub url : Option String

-- The fields of an AgentCard that are set.
pub record Card (Auth : Type 0) : Type 0 where
  pub url : String
  pub name : String
  pub description : Option String
  pub version : String
  pub documentation_url : Option String
  pub default_input_modes : List String
  pub default_output_modes : List String
  pub provider : Option Provider
  pub authentication : Option Auth

-- A field that is a pointer stays nil for an empty text.
unless_empty : String → Option String
unless_empty s = if s == "" then none else some s

provider_url : Setting String → Option String
unfolding unless_empty
provider_url (value s) = unless_empty s
provider_url (invalid s e) = none

provider_of : String → Setting String → Provider
unfolding provider_url
provider_of organization url = record { organization = organization; url = provider_url url }

module _ {Auth : Type 0} where
  empty_card : String → Card Auth
  empty_card url = record {
    url = url;
    name = "";
    description = none;
    version = "";
    documentation_url = none;
    default_input_modes = [];
    default_output_modes = [];
    provider = none;
    authentication = none;
  }

  -- A field that is set from a setting, whose error ends the function.
  field_then :
      {A : Type 0}
      → Setting A
      → (A → Card Auth)
      → (Card Auth → Card Auth × Option GoError)
      → Card Auth × Option GoError
  field_then (value a) set go_on = go_on (set a)
  field_then (invalid a e) set go_on = (set a, some e)

  no_provider :
      Setting String
      → Card Auth
      → (Card Auth → Card Auth × Option GoError)
      → Card Auth × Option GoError
  no_provider (value url) c go_on = go_on c
  no_provider (invalid url e) c go_on = (c, some e)

  provider_then :
      Setting String
      → Setting String
      → Card Auth
      → (Card Auth → Card Auth × Option GoError)
      → Card Auth × Option GoError
  unfolding provider_of no_provider
  provider_then (invalid organization e) url c go_on = (c, some e)
  provider_then (value organization) url c go_on =
      if organization == ""
      then no_provider url c go_on
      else go_on (record c { provider = some (provider_of organization url) })

  module _ (decode_auth : String → Auth ⊎ GoError) where
    with_auth : Card Auth → Auth ⊎ GoError → Card Auth × Option GoError
    unfolding error_text
    with_auth c (inl auth) = (record c { authentication = some auth }, none)
    with_auth c (inr e) = (c, some (plain ("invalid a2a_agent_authentication: " <> error_text e)))

    authentication_of : Setting String → Card Auth → Card Auth × Option GoError
    unfolding with_auth
    authentication_of (invalid json e) c = (c, some e)
    authentication_of (value json) c =
        if (json == "") || (json == "{}") || (json == "null")
        then (c, none)
        else with_auth c (decode_auth json)

    unfoldable pub get_a2a_agent_card :
        (String → JsonValue ⊎ GoError) → Database → String → Card Auth × Option GoError
    unfolding get_setting_string get_setting_string_slice empty_card field_then unless_empty
        provider_then authentication_of
    get_a2a_agent_card decode db url =
        let text = get_setting_string decode db in
        let texts = get_setting_string_slice decode db in
        let c0 = empty_card url in
        field_then (text "a2a_agent_name" "Gate4AI A2A Agent") (λ s. record c0 { name = s })
          λ c1.
            field_then (text "a2a_agent_description" "")
              (λ s. record c1 { description = unless_empty s })
              λ c2.
                field_then (text "a2a_agent_version" "1.0.0") (λ s. record c2 { version = s })
                  λ c3.
                    field_then (text "a2a_agent_documentation_url" "")
                      (λ s. record c3 { documentation_url = unless_empty s })
                      λ c4.
                        field_then (texts "a2a_default_input_modes" ("text" ∷ []))
                          (λ s. record c4 { default_input_modes = s })
                          λ c5.
                            field_then (texts "a2a_default_output_modes" ("text" ∷ []))
                              (λ s. record c5 { default_output_modes = s })
                              λ c6.
                                provider_then (text "a2a_agent_provider_organization" "")
                                  (text "a2a_agent_provider_url" "") c6
                                  λ c7. authentication_of (text "a2a_agent_authentication" "") c7
