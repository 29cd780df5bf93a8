-- ===== src/Completion.antt =====
-- Completion of arguments: server/mcp/capability/completion.go. A completer is a number that stands
-- for the function; a nil one is `none`.
pub mod Reached
pub mod Examples
use gate4ai.Prelude.{
  ℕ, ◌/◌, ◌<◌, ◌⊎◌, inl, inr, Bool, false, Option, none, some, List, [], String, ◌<>◌, ◌==◌, arith,
  if◌then◌else◌, ℤ,
}
use gate4ai.Dict
use gate4ai.Dict.{Dict}
use gate4ai.Input.{Reaction, returns}
use gate4ai.Jsonrpc.{GoError, Encoded, plain, nil, value, error_text}

pub record CompletionCapability : Type 0 where
  pub prompt_completers : Dict ℕ
  pub resource_completers : Dict ℕ

unfoldable pub new_completion_capability : CompletionCapability
new_completion_capability = record { prompt_completers = []; resource_completers = [] }

-- A completer that is nil is not stored.
unfoldable pub add_prompt_completer :
    CompletionCapability → String → Option ℕ → CompletionCapability
add_prompt_completer cc name none = cc
add_prompt_completer cc name (some h) = record cc {
  prompt_completers = Dict.put cc.prompt_completers name h;
}

unfoldable pub add_resource_completer :
    CompletionCapability → String → Option ℕ → CompletionCapability
add_resource_completer cc uri none = cc
add_resource_completer cc uri (some h) = record cc {
  resource_completers = Dict.put cc.resource_completers uri h;
}

unfoldable pub remove_prompt_completer : CompletionCapability → String → CompletionCapability
remove_prompt_completer cc name =
    if Dict.has cc.prompt_completers name
    then record cc { prompt_completers = Dict.remove cc.prompt_completers name }
    else cc

unfoldable pub remove_resource_completer : CompletionCapability → String → CompletionCapability
remove_resource_completer cc uri =
    if Dict.has cc.resource_completers uri
    then record cc { resource_completers = Dict.remove cc.resource_completers uri }
    else cc

unfoldable pub find_resource_completer : CompletionCapability → String → Option ℕ
find_resource_completer cc uri = Dict.get cc.resource_completers uri

-- What the parameters hold: the JSON of the reference and the argument.
pub record CompletionParams : Type 0 where
  pub ref : String
  pub argument_name : String
  pub argument_value : String

-- `CompletionInfo` with its optional fields.
pub record CompletionInfo : Type 0 where
  pub values : List String
  pub total : Option ℤ
  pub has_more : Option Bool

unfoldable pub default_completion_info : CompletionInfo
default_completion_info = record { values = []; total = none; has_more = none }

-- How the end of a completer is answered: without information, with that of no value.
unfoldable pub completed : (CompletionInfo → Encoded) → Option CompletionInfo ⊎ GoError → Reaction
unfolding default_completion_info
completed result_json (inr e) =
    returns nil (some (plain ("completion handler failed: " <> error_text e)))
completed result_json (inl none) = returns (value false (result_json default_completion_info)) none
completed result_json (inl (some info)) = returns (value false (result_json info)) none

-- `unmarshal`, `unmarshal_type`, `unmarshal_name` and `unmarshal_uri` are `json.Unmarshal` into the
-- parameters, the base of a reference, and the two references. `complete` is what a completer
-- returns for the message, by the name and the value of the argument: the information, which may be nil, or an error.
module _ (unmarshal : String → CompletionParams ⊎ GoError)
    (unmarshal_type unmarshal_name unmarshal_uri : String → String ⊎ GoError)
    (complete : ℕ → String → String → Option CompletionInfo ⊎ GoError)
    (result_json : CompletionInfo → Encoded) where
  call_completer : CompletionParams → String → Option ℕ → Reaction
  unfolding completed
  call_completer params missing none = returns nil (some (plain missing))
  call_completer params missing (some h) =
      completed result_json (complete h params.argument_name params.argument_value)

  complete_prompt : CompletionCapability → CompletionParams → String ⊎ GoError → Reaction
  unfolding call_completer
  complete_prompt cc params (inr e) =
      returns nil (some (plain ("invalid prompt reference: " <> error_text e)))
  complete_prompt cc params (inl name) =
      call_completer params ("no completion handler for prompt: " <> name)
        (Dict.get cc.prompt_completers name)

  complete_resource : CompletionCapability → CompletionParams → String ⊎ GoError → Reaction
  unfolding call_completer find_resource_completer
  complete_resource cc params (inr e) =
      returns nil (some (plain ("invalid resource reference: " <> error_text e)))
  complete_resource cc params (inl uri) =
      call_completer params ("no completion handler for resource: " <> uri)
        (find_resource_completer cc uri)

  complete_type : CompletionCapability → CompletionParams → String ⊎ GoError → Reaction
  unfolding complete_prompt complete_resource
  complete_type cc params (inr e) =
      returns nil (some (plain ("invalid reference in parameters: " <> error_text e)))
  complete_type cc params (inl type) =
      if type == "ref/prompt"
      then complete_prompt cc params (unmarshal_name params.ref)
      else if type == "ref/resource"
      then complete_resource cc params (unmarshal_uri params.ref)
      else returns nil (some (plain ("unsupported reference type: " <> type)))

  complete_read : CompletionCapability → CompletionParams ⊎ GoError → Reaction
  unfolding complete_type
  complete_read cc (inr e) = returns nil (some (plain ("invalid parameters: " <> error_text e)))
  complete_read cc (inl params) = complete_type cc params (unmarshal_type params.ref)

  unfoldable pub handle_completion_complete : CompletionCapability → Option String → Reaction
  unfolding complete_read
  handle_completion_complete cc none = returns nil (some (plain "invalid request: missing params"))
  handle_completion_complete cc (some raw) = complete_read cc (unmarshal raw)
