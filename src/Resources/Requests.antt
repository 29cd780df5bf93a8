-- ===== src/Resources/Requests.antt =====
-- The requests that read: `handleResourcesList`, `handleResourceTemplatesList` and
-- `handleResourcesRead` of server/mcp/capability/resources.go. `unmarshal` reads parameters,
-- `resource_json` and the like write what is sent, and `run` is the handler with a number.
use gate4ai.Dict
use gate4ai.Handshake.{rewrapped}
use gate4ai.Input.{Reaction, returns}
use gate4ai.Jsonrpc.{
  GoError, error_text, Encoded, nil, value, invalid_params_code, server_error_code,
}
use gate4ai.Resources.{Resource, ResourceTemplate, ResourcesCapability}
use gate4ai.Tools.{handle_list}
use gate4ai.Prelude.{ℕ, ◌⊎◌, inl, inr, false, Option, none, some, List, map, String, ◌<>◌}

module _ {P : Type 0} (unmarshal : String → P ⊎ String) (list_json : List String → Encoded) where
  unfoldable pub handle_resources_list :
      (Resource → String) → ResourcesCapability → Option String → Reaction
  unfolding handle_list
  handle_resources_list resource_json c raw =
      handle_list unmarshal list_json (map (λ e. resource_json e.1) c.resources) raw

  unfoldable pub handle_resource_templates_list :
      (ResourceTemplate → String) → ResourcesCapability → Option String → Reaction
  unfolding handle_list
  handle_resource_templates_list template_json c raw =
      handle_list unmarshal list_json (map (λ e. template_json e.1) c.templates) raw

-- A handler gives the JSON of its contents, or an error. A resource of the table has a handler.
module _ (unmarshal : String → String ⊎ String) (run : ℕ → Option String → String ⊎ GoError)
    (result_json : String → Encoded) where
  read_end : String ⊎ GoError → Reaction
  unfolding rewrapped
  read_end (inl contents) = returns (value false (result_json contents)) none
  read_end (inr e) =
      returns nil (some (rewrapped server_error_code ("Handler failed: " <> error_text e)))

  read_found : Option String → String → Option Resource → Reaction
  unfolding rewrapped read_end
  read_found raw uri none =
      returns nil (some (rewrapped server_error_code ("Resource not found: " <> uri)))
  read_found raw uri (some r) = read_end (run r.handler raw)

  read_named : ResourcesCapability → Option String → String ⊎ String → Reaction
  unfolding rewrapped read_found
  read_named c raw (inl uri) = read_found raw uri (Dict.get c.resources uri)
  read_named c raw (inr e) =
      returns nil (some (rewrapped invalid_params_code ("Invalid parameters: " <> e)))

  unfoldable pub handle_resources_read : ResourcesCapability → Option String → Reaction
  unfolding read_named rewrapped
  handle_resources_read c none = returns nil (some (rewrapped invalid_params_code "Missing params"))
  handle_resources_read c (some raw) = read_named c (some raw) (unmarshal raw)
