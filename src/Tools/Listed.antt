-- ===== src/Tools/Listed.antt =====
-- Which handler a call reaches in server/mcp/capability/tools.go, and what the list has of it.
use mathlib.Core.List.{Memᴰ}
use mathlib.Core.List.Memᴰ
use gate4ai.Dict
use gate4ai.Dict.{Dict}
use gate4ai.Prelude.{
  ℕ, ◌≡◌, ◌⊎◌, inl, inr, refl, sym, ap, ◌∙◌, Bool, false, Option, none, some, List, [], ◌∷◌, String,
  ◌<>◌, ◌==◌, eq_iff, arith, if◌then◌else◌, is_some, Bool-cases, if_cases, All,
}
use gate4ai.Handshake.{rewrapped}
use gate4ai.Input.{returns}
use gate4ai.Jsonrpc.{Encoded, nil, value, method_not_found_code}
use gate4ai.Tools.{
  Tool, Tools, Changed, add_tool, update_tool, delete_tool, put_tool, CallParams, ToolRun,
  handle_tools_call, call_read, call_found, definitions, handle_tools_list,
}

pub data Op : Type 0 where
  add : String → String → Option ℕ → Op
  update : String → String → Option ℕ → Op
  delete : String → Op

unfoldable pub apply_op : Op → Tools → Tools
apply_op (add name definition handler) tools = (add_tool tools name definition handler).state
apply_op (update name definition handler) tools = (update_tool tools name definition handler).state
apply_op (delete name) tools = (delete_tool tools name).state

unfoldable pub run_ops : List Op → Tools → Tools
run_ops [] tools = tools
run_ops (op ∷ ops) tools = run_ops ops (apply_op op tools)

-- The tool that the operations leave for a name, by their history: an addition counts where there
-- is none, an update where there is one, and neither with a nil handler.
replaced : String → String → Option ℕ → Option Tool → Option Tool
replaced name definition none before = before
replaced name definition (some h) before =
    some (record { name = name; definition = definition; handler = h })

added : String → String → Option ℕ → Option Tool → Option Tool
unfolding replaced
added name definition handler none = replaced name definition handler none
added name definition handler (some t) = some t

updated : String → String → Option ℕ → Option Tool → Option Tool
unfolding replaced
updated name definition handler none = none
updated name definition handler (some t) = replaced name definition handler (some t)

unfoldable pub last_tool : String → List Op → Option Tool → Option Tool
unfolding added updated
last_tool name [] t = t
last_tool name (add n definition handler ∷ ops) t =
    last_tool name ops (if n == name then added n definition handler t else t)
last_tool name (update n definition handler ∷ ops) t =
    last_tool name ops (if n == name then updated n definition handler t else t)
last_tool name (delete n ∷ ops) t = last_tool name ops (if n == name then none else t)

-- Every tool stands under its own name.
abbrev IsNamed : Tools → Type 0
IsNamed = All (λ e. e.0 ≡ e.1.name)

put-IsNamed : (tools : Tools) (t : Tool) → IsNamed tools → IsNamed (Dict.put tools t.name t)
unfolding Dict.put
put-IsNamed [] t h = (refl, tt)
put-IsNamed ((k, u) ∷ tools) t h = elim (Bool-cases (k == t.name)) [
  | inl e ↦ rw e (refl, h.1)
  | inr e ↦ rw e (h.0, put-IsNamed tools t h.1)
]

remove-IsNamed : (tools : Tools) (k : String) → IsNamed tools → IsNamed (Dict.remove tools k)
unfolding Dict.remove
remove-IsNamed [] k h = tt
remove-IsNamed ((j, u) ∷ tools) k h = elim (Bool-cases (j == k)) [
  | inl e ↦ rw e (remove-IsNamed tools k h.1)
  | inr e ↦ rw e (h.0, remove-IsNamed tools k h.1)
]

put_tool-IsNamed :
    (tools : Tools) (name definition : String) (handler : Option ℕ)
    → IsNamed tools
    → IsNamed (put_tool tools name definition handler).state
unfolding put_tool
put_tool-IsNamed tools name definition none h = h
put_tool-IsNamed tools name definition (some g) h =
    put-IsNamed tools (record { name = name; definition = definition; handler = g }) h

apply_op-IsNamed : (op : Op) (tools : Tools) → IsNamed tools → IsNamed (apply_op op tools)
unfolding apply_op add_tool update_tool delete_tool
apply_op-IsNamed (add name definition handler) tools h =
    if_cases (λ (c : Changed Tools). IsNamed c.state) (Dict.has tools name) _ _ (λ _. h)
      (λ _. put_tool-IsNamed tools name definition handler h)
apply_op-IsNamed (update name definition handler) tools h =
    if_cases (λ (c : Changed Tools). IsNamed c.state) (Dict.has tools name) _ _
      (λ _. put_tool-IsNamed tools name definition handler h) (λ _. h)
apply_op-IsNamed (delete name) tools h =
    if_cases (λ (c : Changed Tools). IsNamed c.state) (Dict.has tools name) _ _
      (λ _. remove-IsNamed tools name h) (λ _. h)

run_ops-IsNamed : (ops : List Op) (tools : Tools) → IsNamed tools → IsNamed (run_ops ops tools)
unfolding run_ops
run_ops-IsNamed [] tools h = h
run_ops-IsNamed (op ∷ ops) tools h = run_ops-IsNamed ops _ (apply_op-IsNamed op tools h)

get-add_tool :
    (tools : Tools) (n definition name : String) (handler : Option ℕ)
    → Dict.get (add_tool tools n definition handler).state name ≡ (
        if n == name then added n definition handler (Dict.get tools name) else Dict.get tools name)
unfolding add_tool put_tool added replaced
get-add_tool tools n definition name none = ground (arith, eq_iff n name, ap (Dict.get tools))
get-add_tool tools n definition name (some h) =
    let t : Tool = record { name = n; definition = definition; handler = h } in
    elim (Bool-cases (n == name)) [
      | inl e ↦
          ground (arith, e, Dict.get-put tools n name t, ap (Dict.get tools) ((eq_iff n name).0 e))
      | inr e ↦ ground (arith, e, Dict.get-put tools n name t)
    ]

get-update_tool :
    (tools : Tools) (n definition name : String) (handler : Option ℕ)
    → Dict.get (update_tool tools n definition handler).state name ≡ (
        if n == name
        then updated n definition handler (Dict.get tools name)
        else Dict.get tools name)
unfolding update_tool put_tool updated replaced
get-update_tool tools n definition name none = ground (arith, eq_iff n name, ap (Dict.get tools))
get-update_tool tools n definition name (some h) =
    let t : Tool = record { name = n; definition = definition; handler = h } in
    elim (Bool-cases (n == name)) [
      | inl e ↦
          ground (arith, e, Dict.get-put tools n name t, ap (Dict.get tools) ((eq_iff n name).0 e))
      | inr e ↦ ground (arith, e, Dict.get-put tools n name t)
    ]

get-delete_tool :
    (tools : Tools) (n name : String)
    → Dict.get (delete_tool tools n).state name ≡ (if n == name then none else Dict.get tools name)
unfolding delete_tool
get-delete_tool tools n name = elim (Bool-cases (n == name)) [
  | inl e ↦
      ground (arith, e, Dict.get-remove tools n name, ap (Dict.get tools) ((eq_iff n name).0 e))
  | inr e ↦ ground (arith, e, Dict.get-remove tools n name)
]

get-run_ops :
    (ops : List Op) (tools : Tools) (name : String)
    → Dict.get (run_ops ops tools) name ≡ last_tool name ops (Dict.get tools name)
unfolding run_ops apply_op last_tool
get-run_ops [] tools name = refl
get-run_ops (add n definition handler ∷ ops) tools name =
    get-run_ops ops (add_tool tools n definition handler).state name
    ∙ ap (last_tool name ops) (get-add_tool tools n definition name handler)
get-run_ops (update n definition handler ∷ ops) tools name =
    get-run_ops ops (update_tool tools n definition handler).state name
    ∙ ap (last_tool name ops) (get-update_tool tools n definition name handler)
get-run_ops (delete n ∷ ops) tools name =
    get-run_ops ops (delete_tool tools n).state name
    ∙ ap (last_tool name ops) (get-delete_tool tools n name)

-- The list has the name with the definition that a lookup finds, or not at all.
get-listed :
    (tools : Tools) (name : String)
    → IsNamed tools
    → ((t : Tool) × (Dict.get tools name ≡ some t) × Memᴰ (name, t.definition) (definitions tools))
      ⊎ ((Dict.get tools name ≡ none) × ((d : String) → ¬ Memᴰ (name, d) (definitions tools)))
unfolding Dict.get definitions
get-listed [] name h = inr (refl, λ d m. elim m [ ])
get-listed ((k, t) ∷ tools) name h = elim (Bool-cases (k == name)) [
  | inl e ↦
      rw e
        (inl (t, refl, Memᴰ.head (ap (λ n. (n, t.definition)) (sym ((eq_iff k name).0 e) ∙ h.0))))
  | inr e ↦ rw e (elim (get-listed tools name h.1) [
    | inl (u, found, there) ↦ inl (u, found, Memᴰ.tail there)
    | inr (absent, no_tool) ↦ inr (
      absent,
      λ d m. elim (Memᴰ.cases_cons m) [
        | inl q ↦
            let same : t.name ≡ name = sym (ap (λ x. x.0) q) in
            cc (e, (eq_iff k name).1 (h.0 ∙ same))
        | inr q ↦ no_tool d q
      ],
    )
  ])
]

module _ {P : Type 0} (unmarshal_list : String → P ⊎ String)
    (list_json : List (String × String) → Encoded) (unmarshal : String → CallParams ⊎ String)
    (run : ℕ → String → ToolRun) (result_json : String → Bool → Encoded) where
  -- After any operations, a call with readable parameters runs the handler of the last tool that
  -- they leave under its name, whose definition is then in the list under that name, and its
  -- result is the handler's, an error of the handler being a flag of the result. Where they leave
  -- no tool under the name, the list has none, and the answer is an error.
  pub handle_tools_call-last_tool :
      (ops : List Op) (raw : String) (p : CallParams)
      → unmarshal raw ≡ inl p
      → let tools : Tools = run_ops ops [] in
        let call = handle_tools_call unmarshal run result_json tools (some raw) in
        (handle_tools_list unmarshal_list list_json tools none
          ≡ returns (value false (list_json (definitions tools))) none)
        × (((t : Tool) × (last_tool p.name ops none ≡ some t)
              × Memᴰ (p.name, t.definition) (definitions tools)
              × (call
                  ≡ returns
                      (value false (
                        result_json
                          (run t.handler p.arguments).content
                          (is_some (run t.handler p.arguments).error)))
                      none))
            ⊎ ((last_tool p.name ops none ≡ none)
                × ((d : String) → ¬ Memᴰ (p.name, d) (definitions tools))
                × (call
                    ≡ returns nil
                        (some (rewrapped method_not_found_code ("Tool not found: " <> p.name))))))
  unfolding handle_tools_call handle_tools_list Dict.get
  handle_tools_call-last_tool ops raw p read =
      let tools : Tools = run_ops ops [] in
      let step = ap (call_read unmarshal run result_json tools) read in
      let history = get-run_ops ops [] p.name in
      (
        refl,
        elim (get-listed tools p.name (run_ops-IsNamed ops [] tt)) [
          | inl (t, found, there) ↦ inl (
            t,
            sym history ∙ found,
            there,
            step ∙ ap (λ o. call_found unmarshal run result_json o p) found,
          )
          | inr (absent, no_tool) ↦ inr (
            sym history ∙ absent,
            no_tool,
            step ∙ ap (λ o. call_found unmarshal run result_json o p) absent,
          )
        ],
      )
