-- ===== src/Tools.antt =====
-- The tools of a server: server/mcp/capability/tools.go. A definition is kept by its name and the
-- JSON of the rest; a handler is a number that stands for the function, and what a call of it
-- returns is an argument. `none` is a nil handler. The arguments of a call are their JSON.
pub mod Listed
pub mod Examples
use gate4ai.Dict
use gate4ai.Dict.{Dict}
use gate4ai.Prelude.{
  ℕ, ◌<◌, ◌⊎◌, inl, inr, Bool, true, false, not, Option, none, some, List, map, String, ◌<>◌, arith,
  if◌then◌else◌, is_some,
}
use gate4ai.Handshake.{rewrapped}
use gate4ai.Input.{Reaction, returns}
use gate4ai.Jsonrpc.{
  GoError, plain, Encoded, nil, value, invalid_params_code, method_not_found_code,
}

pub record Tool : Type 0 where
  pub name : String
  pub definition : String
  pub handler : ℕ

abbrev pub Tools : Type 0
Tools = Dict Tool

-- The new state, an error, and whether the sessions are told of a change.
pub record Changed (S : Type 0) : Type 0 where
  pub state : S
  pub error : Option GoError
  pub announced : Bool

abbrev pub unchanged : {S : Type 0} → S → String → Changed S
unchanged s e = record { state = s; error = some (plain e); announced = false }

abbrev pub changed : {S : Type 0} → S → Changed S
changed s = record { state = s; error = none; announced = true }

put_tool : Tools → String → String → Option ℕ → Changed Tools
put_tool tools name definition none =
    unchanged tools ("handler cannot be nil for tool '" <> name <> "'")
put_tool tools name definition (some h) =
    changed (Dict.put tools name (record { name = name; definition = definition; handler = h }))

unfoldable pub add_tool : Tools → String → String → Option ℕ → Changed Tools
unfolding put_tool
add_tool tools name definition handler =
    if Dict.has tools name
    then unchanged tools ("tool with name '" <> name <> "' already exists")
    else put_tool tools name definition handler

unfoldable pub update_tool : Tools → String → String → Option ℕ → Changed Tools
unfolding put_tool
update_tool tools name definition handler =
    if Dict.has tools name
    then put_tool tools name definition handler
    else unchanged tools ("tool with name '" <> name <> "' does not exist")

unfoldable pub delete_tool : Tools → String → Changed Tools
delete_tool tools name =
    if Dict.has tools name
    then changed (Dict.remove tools name)
    else unchanged tools ("tool with name '" <> name <> "' does not exist")

-- `unmarshal` reads parameters: what they say, or the text of the error. `list_json` writes the
-- result of a list, `result_json` that of a call, whose content is JSON.
module _ {P I : Type 0} (unmarshal : String → P ⊎ String) (list_json : List I → Encoded) where
  listing : List I → P ⊎ String → Reaction
  unfolding rewrapped
  listing items (inl p) = returns (value false (list_json items)) none
  listing items (inr e) =
      returns nil (some (rewrapped invalid_params_code ("Invalid parameters: " <> e)))

  -- A list that may come with parameters, which are read and otherwise ignored.
  unfoldable pub handle_list : List I → Option String → Reaction
  unfolding listing
  handle_list items none = returns (value false (list_json items)) none
  handle_list items (some raw) = listing items (unmarshal raw)

-- `tool.Tool` of each entry: its name, and the JSON of the rest.
unfoldable pub definitions : Tools → List (String × String)
definitions tools = map (λ e. (e.1.name, e.1.definition)) tools

unfoldable pub handle_tools_list :
    {P : Type 0}
    → (String → P ⊎ String)
    → (List (String × String) → Encoded)
    → Tools
    → Option String
    → Reaction
unfolding definitions handle_list
handle_tools_list unmarshal list_json tools params =
    handle_list unmarshal list_json (definitions tools) params

pub record CallParams : Type 0 where
  pub name : String
  pub arguments : String

-- What a handler returns: the JSON of its metadata and content, and its error.
pub record ToolRun : Type 0 where
  pub content : String
  pub error : Option GoError

module _ (unmarshal : String → CallParams ⊎ String) (run : ℕ → String → ToolRun)
    (result_json : String → Bool → Encoded) where
  call_found : Option Tool → CallParams → Reaction
  unfolding rewrapped
  call_found none p =
      returns nil (some (rewrapped method_not_found_code ("Tool not found: " <> p.name)))
  call_found (some tool) p =
      let r : ToolRun = run tool.handler p.arguments in
      returns (value false (result_json r.content (is_some r.error))) none

  call_read : Tools → CallParams ⊎ String → Reaction
  unfolding call_found rewrapped
  call_read tools (inl p) = call_found (Dict.get tools p.name) p
  call_read tools (inr e) =
      returns nil (some (rewrapped invalid_params_code ("Invalid parameters: " <> e)))

  unfoldable pub handle_tools_call : Tools → Option String → Reaction
  unfolding call_read rewrapped
  handle_tools_call tools none = returns nil (some (rewrapped invalid_params_code "Missing params"))
  handle_tools_call tools (some raw) = call_read tools (unmarshal raw)
