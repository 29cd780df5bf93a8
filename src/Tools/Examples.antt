-- ===== src/Tools/Examples.antt =====
-- The theorem on tool calls at a concrete registry.
use mathlib.Core.List.{Memᴰ}
use gate4ai.Prelude.{
  ℕ, ◌≡◌, ◌⊎◌, inl, refl, Bool, false, none, some, List, [], ◌∷◌, String, ◌<>◌, is_some,
}
use gate4ai.Handshake.{rewrapped}
use gate4ai.Input.{returns}
use gate4ai.Jsonrpc.{Encoded, encoded, nil, value, method_not_found_code}
use gate4ai.Tools.{
  Tool, Tools, CallParams, ToolRun, handle_tools_call, handle_tools_list, definitions,
}
use gate4ai.Tools.Listed.{Op, add, delete, run_ops, last_tool, handle_tools_call-last_tool}

abbrev unmarshal : String → CallParams ⊎ String
unmarshal raw = inl (record { name = raw; arguments = "{}" })

abbrev run : ℕ → String → ToolRun
run h arguments = record { content = arguments; error = none }

abbrev result_json : String → Bool → Encoded
result_json content is_error = encoded content

abbrev ops : List Op
ops = add "echo" "{}" (some 1) ∷ add "sum" "{}" (some 2) ∷ delete "sum" ∷ []

abbrev read_list : String → String ⊎ String
read_list raw = inl raw

abbrev names_json : List (String × String) → Encoded
names_json ds = encoded "[]"

handle_tools_call-last_tool_example :
    let tools : Tools = run_ops ops [] in
    let call = handle_tools_call unmarshal run result_json tools (some "echo") in
    (handle_tools_list read_list names_json tools none
      ≡ returns (value false (names_json (definitions tools))) none)
    × (((t : Tool) × (last_tool "echo" ops none ≡ some t)
          × Memᴰ {A = String × String} ("echo", t.definition) (definitions tools)
          × (call
              ≡ returns
                  (value false
                    (result_json (run t.handler "{}").content (is_some (run t.handler "{}").error)))
                  none))
        ⊎ ((last_tool "echo" ops none ≡ none)
            × ((d : String) → ¬ Memᴰ {A = String × String} ("echo", d) (definitions tools))
            × (call
                ≡ returns nil
                    (some (rewrapped method_not_found_code ("Tool not found: " <> "echo"))))))
handle_tools_call-last_tool_example =
    handle_tools_call-last_tool read_list names_json unmarshal run result_json ops "echo"
      (record { name = "echo"; arguments = "{}" }) refl
