-- ===== src/Completion/Examples.antt =====
-- Runs of server/mcp/capability/completion.go.
use gate4ai.Prelude.{
  ℕ, ◌≡◌, ◌⊎◌, inl, inr, refl, Option, none, some, List, [], ◌∷◌, ◌++◌, String, ◌<>◌, eqb,
  if◌then◌else◌,
}
use gate4ai.Completion.{
  CompletionInfo, CompletionParams, new_completion_capability, handle_completion_complete,
  completed,
}
use gate4ai.Completion.Reached.{
  Op, prompt_added, prompt_removed, resource_added, run_ops, last_completer,
  handle_completion_complete-last_completer,
}
use gate4ai.Input.{returns}
use gate4ai.Jsonrpc.{GoError, Encoded, encoded, plain, nil}

abbrev colors : CompletionParams
colors = record { ref = "r"; argument_name = "color"; argument_value = "re" }

abbrev read_params : String → CompletionParams ⊎ GoError
read_params raw = inl colors

abbrev read_type : String → String ⊎ GoError
read_type ref = inl "ref/prompt"

abbrev read_name : String → String ⊎ GoError
read_name ref = inl "p"

abbrev complete : ℕ → String → String → Option CompletionInfo ⊎ GoError
complete k name text = if eqb k 2 then inl none else inr (plain "no colors")

abbrev no_json : CompletionInfo → Encoded
no_json info = encoded "{}"

abbrev ops : List Op
ops =
    prompt_added "p" (some 1)
    ∷ prompt_added "p" (some 2)
    ∷ prompt_added "p" none
    ∷ resource_added "p" (some 3)
    ∷ prompt_removed "q"
    ∷ []

last_test : last_completer "p" ops none ≡ some 2
unfolding last_completer
last_test = refl

removed_test : last_completer "p" (ops ++ prompt_removed "p" ∷ []) none ≡ none
unfolding last_completer
removed_test = refl

handle_completion_complete-last_completer_example :
    let reply =
      handle_completion_complete read_params read_type read_name read_name complete no_json
        (run_ops ops new_completion_capability)
        (some "{}") in
    ((k : ℕ) × (last_completer "p" ops none ≡ some k)
      × (reply ≡ completed no_json (complete k "color" "re")))
    ⊎ ((last_completer "p" ops none ≡ none)
        × (reply ≡ returns nil (some (plain ("no completion handler for prompt: " <> "p")))))
handle_completion_complete-last_completer_example =
    handle_completion_complete-last_completer read_params read_type read_name read_name complete
      no_json ops "{}" "p" colors refl refl refl
