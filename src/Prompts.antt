-- ===== src/Prompts.antt =====
-- The prompts of a server: server/mcp/capability/prompts.go. Names are looked up among the prompts
-- first and then among the templates. A handler is a number that stands for the function.
pub mod Disjoint
pub mod Examples
use gate4ai.Dict
use gate4ai.Dict.{Dict}
use gate4ai.Prelude.{
  ℕ, ◌+◌, ◌<◌, ◌⊎◌, inl, inr, false, not, Option, none, some, List, [], ◌++◌, map, String, ◌<>◌,
  arith, if◌then◌else◌,
}
use gate4ai.Handshake.{rewrapped}
use gate4ai.Input.{Reaction, returns}
use gate4ai.Jsonrpc.{
  GoError, Encoded, nil, value, error_text, invalid_params_code, server_error_code,
}
use gate4ai.Tools.{Changed, changed, unchanged, handle_list}

-- `arguments` is the JSON of the arguments of a template. `handler` is never nil here, since no
-- operation stores a nil one.
pub record Prompt : Type 0 where
  pub description : String
  pub arguments : Option String
  pub handler : ℕ
  pub last_modified : ℕ

pub record PromptsCapability : Type 0 where
  pub prompts : Dict Prompt
  pub templates : Dict Prompt

unfoldable pub new_prompts_capability : PromptsCapability
new_prompts_capability = record { prompts = []; templates = [] }

store_prompt : PromptsCapability → String → String → Option ℕ → ℕ → Changed PromptsCapability
store_prompt pc name description none now =
    unchanged pc ("handler cannot be nil for prompt '" <> name <> "'")
store_prompt pc name description (some h) now = changed (record pc {
  prompts =
      Dict.put pc.prompts name
        (record { description = description; arguments = none; handler = h; last_modified = now });
})

unfoldable pub add_prompt :
    PromptsCapability → String → String → Option ℕ → ℕ → Changed PromptsCapability
unfolding store_prompt
add_prompt pc name description handler now =
    if Dict.has pc.prompts name
    then unchanged pc ("prompt '" <> name <> "' already exists")
    else if Dict.has pc.templates name
    then unchanged pc ("template '" <> name <> "' already exists")
    else store_prompt pc name description handler now

unfoldable pub update_prompt :
    PromptsCapability → String → String → Option ℕ → ℕ → Changed PromptsCapability
unfolding store_prompt
update_prompt pc name description handler now =
    if Dict.has pc.prompts name
    then store_prompt pc name description handler now
    else unchanged pc ("prompt '" <> name <> "' not found")

unfoldable pub delete_prompt : PromptsCapability → String → Changed PromptsCapability
delete_prompt pc name =
    if Dict.has pc.prompts name
    then changed (record pc { prompts = Dict.remove pc.prompts name })
    else unchanged pc ("prompt '" <> name <> "' not found")

store_template :
    PromptsCapability → String → String → String → Option ℕ → ℕ → Changed PromptsCapability
store_template pc name description arguments none now =
    unchanged pc ("handler cannot be nil for template '" <> name <> "'")
store_template pc name description arguments (some h) now = changed (record pc {
  templates = Dict.put pc.templates name (record {
    description = description;
    arguments = some arguments;
    handler = h;
    last_modified = now;
  });
})

unfoldable pub add_template :
    PromptsCapability → String → String → String → Option ℕ → ℕ → Changed PromptsCapability
unfolding store_template
add_template pc name description arguments handler now =
    if Dict.has pc.templates name
    then unchanged pc ("template '" <> name <> "' already exists")
    else if Dict.has pc.prompts name
    then unchanged pc ("prompt '" <> name <> "' already exists")
    else store_template pc name description arguments handler now

unfoldable pub delete_template : PromptsCapability → String → Changed PromptsCapability
delete_template pc name =
    if Dict.has pc.templates name
    then changed (record pc { templates = Dict.remove pc.templates name })
    else unchanged pc ("template '" <> name <> "' not found")

-- `prompt_json` writes a prompt of the list with its name.
module _ {P : Type 0} (unmarshal : String → P ⊎ String) (prompt_json : String → Prompt → String)
    (list_json : List String → Encoded) where
  all_prompts : PromptsCapability → List String
  all_prompts pc =
      map (λ e. prompt_json e.0 e.1) pc.prompts ++ map (λ e. prompt_json e.0 e.1) pc.templates

  unfoldable pub handle_prompts_list : PromptsCapability → Option String → Reaction
  unfolding all_prompts handle_list
  handle_prompts_list pc params = handle_list unmarshal list_json (all_prompts pc) params

prompt_or_template : Option Prompt → Option Prompt → Option Prompt
prompt_or_template (some p) template = some p
prompt_or_template none template = template

unfoldable pub find_prompt : PromptsCapability → String → Option Prompt
unfolding prompt_or_template
find_prompt pc name = prompt_or_template (Dict.get pc.prompts name) (Dict.get pc.templates name)

-- `unmarshal` reads the name. `run` is what a handler returns: the JSON of its metadata and
-- messages, or its error; `result_json` writes it with the description.
module _ (unmarshal : String → String ⊎ String) (run : ℕ → String ⊎ GoError)
    (result_json : String → String → Encoded) where
  prompt_result : Prompt → String ⊎ GoError → Reaction
  unfolding rewrapped
  prompt_result p (inl content) = returns (value false (result_json p.description content)) none
  prompt_result p (inr e) =
      returns nil (some (rewrapped server_error_code ("Handler failed: " <> error_text e)))

  get_found : String → Option Prompt → Reaction
  unfolding prompt_result rewrapped
  get_found name (some p) = prompt_result p (run p.handler)
  get_found name none =
      returns nil (some (rewrapped server_error_code ("Prompt or template not found: " <> name)))

  get_read : PromptsCapability → String ⊎ String → Reaction
  unfolding get_found find_prompt rewrapped
  get_read pc (inl name) = get_found name (find_prompt pc name)
  get_read pc (inr e) =
      returns nil (some (rewrapped invalid_params_code ("Invalid parameters: " <> e)))

  unfoldable pub handle_prompts_get : PromptsCapability → Option String → Reaction
  unfolding get_read rewrapped
  handle_prompts_get pc none = returns nil (some (rewrapped invalid_params_code "Missing params"))
  handle_prompts_get pc (some raw) = get_read pc (unmarshal raw)
