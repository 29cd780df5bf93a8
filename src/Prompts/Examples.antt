-- ===== src/Prompts/Examples.antt =====
-- The theorem on prompts at a concrete registry.
use gate4ai.Dict
use gate4ai.Prelude.{◌≡◌, false, some, List, [], ◌∷◌}
use gate4ai.Prompts.{Prompt, PromptsCapability, new_prompts_capability, find_prompt}
use gate4ai.Prompts.Disjoint.{Op, prompt, template, both_at, run_ops, run_ops-find_prompt}

abbrev ops : List Op
ops = prompt "a" "first" (some 1) 1 ∷ template "a" "second" "[]" (some 2) 2 ∷ []

run_ops-find_prompt_example :
    let pc : PromptsCapability = run_ops ops new_prompts_capability in
    (both_at pc "a" ≡ false)
    × ((p : Prompt) → Dict.get pc.prompts "a" ≡ some p → find_prompt pc "a" ≡ some p)
    × ((p : Prompt) → Dict.get pc.templates "a" ≡ some p → find_prompt pc "a" ≡ some p)
run_ops-find_prompt_example = run_ops-find_prompt ops "a"
