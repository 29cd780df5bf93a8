-- ===== src/Completion/Reached.antt =====
-- Which completer a request reaches: server/mcp/capability/completion.go after any operations.
use gate4ai.Prelude.{
  ℕ, ◌≡◌, ◌⊎◌, inl, inr, refl, ap, ◌∙◌, Option, none, some, List, [], ◌∷◌, String, ◌<>◌, ◌==◌,
  eq_iff, arith, if◌then◌else◌, Bool-cases,
}
use gate4ai.Completion.{
  CompletionCapability, CompletionInfo, CompletionParams, new_completion_capability,
  add_prompt_completer, add_resource_completer, remove_prompt_completer, remove_resource_completer,
  handle_completion_complete, complete_read, complete_type, complete_prompt, call_completer,
  completed,
}
use gate4ai.Dict
use gate4ai.Dict.{Dict}
use gate4ai.Input.{returns}
use gate4ai.Jsonrpc.{GoError, Encoded, plain, nil}

pub data Op : Type 0 where
  prompt_added resource_added : String → Option ℕ → Op
  prompt_removed resource_removed : String → Op

unfoldable pub apply_op : Op → CompletionCapability → CompletionCapability
apply_op (prompt_added name h) cc = add_prompt_completer cc name h
apply_op (resource_added uri h) cc = add_resource_completer cc uri h
apply_op (prompt_removed name) cc = remove_prompt_completer cc name
apply_op (resource_removed uri) cc = remove_resource_completer cc uri

unfoldable pub run_ops : List Op → CompletionCapability → CompletionCapability
run_ops [] cc = cc
run_ops (op ∷ ops) cc = run_ops ops (apply_op op cc)

-- The completer that the operations leave for a prompt: the last one added that is not nil, unless
-- the name was removed after it.
unfoldable pub last_completer : String → List Op → Option ℕ → Option ℕ
last_completer name [] h = h
last_completer name (prompt_added n (some k) ∷ ops) h =
    last_completer name ops (if n == name then some k else h)
last_completer name (prompt_removed n ∷ ops) h =
    last_completer name ops (if n == name then none else h)
last_completer name (prompt_added n none ∷ ops) h = last_completer name ops h
last_completer name (resource_added uri k ∷ ops) h = last_completer name ops h
last_completer name (resource_removed uri ∷ ops) h = last_completer name ops h

get-remove_prompt_completer :
    (cc : CompletionCapability) (n name : String)
    → Dict.get (remove_prompt_completer cc n).prompt_completers name
      ≡ (if n == name then none else Dict.get cc.prompt_completers name)
unfolding remove_prompt_completer
get-remove_prompt_completer cc n name = elim (Bool-cases (n == name)) [
  | inl e ↦ ground (
    arith,
    e,
    Dict.get-remove cc.prompt_completers n name,
    ap (Dict.get cc.prompt_completers) ((eq_iff n name).0 e),
  )
  | inr e ↦ ground (arith, e, Dict.get-remove cc.prompt_completers n name)
]

remove_resource_completer-prompts :
    (cc : CompletionCapability) (uri : String)
    → (remove_resource_completer cc uri).prompt_completers ≡ cc.prompt_completers
unfolding remove_resource_completer
remove_resource_completer-prompts cc uri = ground arith

get-run_ops :
    (ops : List Op) (cc : CompletionCapability) (name : String)
    → Dict.get (run_ops ops cc).prompt_completers name
      ≡ last_completer name ops (Dict.get cc.prompt_completers name)
unfolding run_ops apply_op last_completer add_prompt_completer add_resource_completer
get-run_ops [] cc name = refl
get-run_ops (prompt_added n none ∷ ops) cc name = get-run_ops ops cc name
get-run_ops (prompt_added n (some k) ∷ ops) cc name =
    get-run_ops ops (add_prompt_completer cc n (some k)) name
    ∙ ap (last_completer name ops) (Dict.get-put cc.prompt_completers n name k)
get-run_ops (prompt_removed n ∷ ops) cc name =
    get-run_ops ops (remove_prompt_completer cc n) name
    ∙ ap (last_completer name ops) (get-remove_prompt_completer cc n name)
get-run_ops (resource_added uri none ∷ ops) cc name = get-run_ops ops cc name
get-run_ops (resource_added uri (some k) ∷ ops) cc name =
    get-run_ops ops (add_resource_completer cc uri (some k)) name
get-run_ops (resource_removed uri ∷ ops) cc name =
    get-run_ops ops (remove_resource_completer cc uri) name
    ∙ ap (λ m. last_completer name ops (Dict.get m name)) (remove_resource_completer-prompts cc uri)

module _ (unmarshal : String → CompletionParams ⊎ GoError)
    (unmarshal_type unmarshal_name unmarshal_uri : String → String ⊎ GoError)
    (complete : ℕ → String → String → Option CompletionInfo ⊎ GoError)
    (result_json : CompletionInfo → Encoded) where
  complete-prompt :
      (cc : CompletionCapability) (raw name : String) (params : CompletionParams)
      → unmarshal raw ≡ inl params
      → unmarshal_type params.ref ≡ inl "ref/prompt"
      → unmarshal_name params.ref ≡ inl name
      → handle_completion_complete unmarshal unmarshal_type unmarshal_name unmarshal_uri complete
          result_json cc
          (some raw)
        ≡ call_completer unmarshal unmarshal_type unmarshal_name unmarshal_uri complete result_json
            params
            ("no completion handler for prompt: " <> name)
            (Dict.get cc.prompt_completers name)
  unfolding handle_completion_complete complete_read complete_type complete_prompt
  complete-prompt cc raw name params h k l = rw (h, k, l) refl

  call_completer-cases :
      (params : CompletionParams) (missing : String) (h : Option ℕ)
      → ((k : ℕ) × (h ≡ some k)
          × (call_completer unmarshal unmarshal_type unmarshal_name unmarshal_uri complete
                result_json params missing h
              ≡ completed result_json (complete k params.argument_name params.argument_value)))
        ⊎ ((h ≡ none)
            × (call_completer unmarshal unmarshal_type unmarshal_name unmarshal_uri complete
                  result_json params missing h
                ≡ returns nil (some (plain missing))))
  unfolding call_completer
  call_completer-cases params missing none = inr (refl, refl)
  call_completer-cases params missing (some k) = inl (k, refl, refl)

  -- After any operations on a new capability, a request to complete an argument of a prompt ends as
  -- the last completer does that was added for the prompt, is not nil, and was not removed
  -- since; it ends with an error that names the prompt if there is none.
  pub handle_completion_complete-last_completer :
      (ops : List Op) (raw name : String) (params : CompletionParams)
      → unmarshal raw ≡ inl params
      → unmarshal_type params.ref ≡ inl "ref/prompt"
      → unmarshal_name params.ref ≡ inl name
      → let reply =
          handle_completion_complete unmarshal unmarshal_type unmarshal_name unmarshal_uri complete
            result_json
            (run_ops ops new_completion_capability)
            (some raw) in
        ((k : ℕ) × (last_completer name ops none ≡ some k)
          × (reply ≡ completed result_json (complete k params.argument_name params.argument_value)))
        ⊎ ((last_completer name ops none ≡ none)
            × (reply ≡ returns nil (some (plain ("no completion handler for prompt: " <> name)))))
  unfolding new_completion_capability gate4ai.Dict.get
  handle_completion_complete-last_completer ops raw name params h k l =
      rw
        (
          complete-prompt (run_ops ops new_completion_capability) raw name params h k l,
          get-run_ops ops new_completion_capability name,
        )
        (call_completer-cases params ("no completion handler for prompt: " <> name)
          (last_completer name ops none))
