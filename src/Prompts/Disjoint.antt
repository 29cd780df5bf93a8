-- ===== src/Prompts/Disjoint.antt =====
-- No name is a prompt and a template: server/mcp/capability/prompts.go after any operations.
use gate4ai.Dict
use gate4ai.Dict
use gate4ai.Dict.{Dict}
use gate4ai.Prelude.{
  ℕ, ◌≡◌, inl, inr, refl, ap, Bool, true, false, ◌&&◌, Option, none, some, List, [], ◌∷◌, String,
  ◌==◌, eq_iff, arith, Bool-cases, if_cases,
}
use gate4ai.Tools.{Changed}
use gate4ai.Prompts.{
  Prompt, PromptsCapability, new_prompts_capability, add_prompt, update_prompt, delete_prompt,
  add_template, delete_template, find_prompt,
}

pub data Op : Type 0 where
  prompt : String → String → Option ℕ → ℕ → Op
  update : String → String → Option ℕ → ℕ → Op
  no_prompt : String → Op
  template : String → String → String → Option ℕ → ℕ → Op
  no_template : String → Op

unfoldable pub apply_op : Op → PromptsCapability → PromptsCapability
apply_op (prompt name description handler now) pc =
    (add_prompt pc name description handler now).state
apply_op (update name description handler now) pc =
    (update_prompt pc name description handler now).state
apply_op (no_prompt name) pc = (delete_prompt pc name).state
apply_op (template name description arguments handler now) pc =
    (add_template pc name description arguments handler now).state
apply_op (no_template name) pc = (delete_template pc name).state

unfoldable pub run_ops : List Op → PromptsCapability → PromptsCapability
run_ops [] pc = pc
run_ops (op ∷ ops) pc = run_ops ops (apply_op op pc)

abbrev pub both_at : PromptsCapability → String → Bool
both_at pc n = Dict.has pc.prompts n && Dict.has pc.templates n

put_keeps :
    (m other : Dict Prompt) (name n : String) (v : Prompt)
    → (Dict.has m n && Dict.has other n) ≡ false
    → Dict.has other name ≡ false
    → (Dict.has (Dict.put m name v) n && Dict.has other n) ≡ false
put_keeps m other name n v h free = elim (Bool-cases (name == n)) [
  | inl e ↦
      ground (
        arith,
        h,
        free,
        e,
        Dict.get-put m name n v,
        ap (λ k. Dict.has other k) ((eq_iff name n).0 e),
      )
  | inr e ↦ ground (arith, h, e, Dict.get-put m name n v)
]

-- With what the guard of an addition says of the other table.
other_free :
    (m other : Dict Prompt) (name : String)
    → (Dict.has m name && Dict.has other name) ≡ false
    → Dict.has m name ≡ true
    → Dict.has other name ≡ false
other_free m other name h there = ground (arith, h, there)

template_keeps :
    (other m : Dict Prompt) (name n : String) (v : Prompt)
    → (Dict.has other n && Dict.has m n) ≡ false
    → Dict.has other name ≡ false
    → (Dict.has other n && Dict.has (Dict.put m name v) n) ≡ false
template_keeps other m name n v h free =
    ground (arith, put_keeps m other name n v (ground (arith, h)) free)

apply_op_keeps :
    (op : Op) (pc : PromptsCapability) (n : String)
    → ((k : String) → both_at pc k ≡ false)
    → both_at (apply_op op pc) n ≡ false
unfolding apply_op add_prompt update_prompt delete_prompt add_template delete_template
apply_op_keeps (prompt name description none now) pc n h = ground (arith, h n)
apply_op_keeps (prompt name description (some f) now) pc n h =
    if_cases (λ (c : Changed PromptsCapability). both_at c.state n ≡ false)
      (Dict.has pc.prompts name) _ _ (λ _. h n)
      (λ _.
        if_cases (λ (c : Changed PromptsCapability). both_at c.state n ≡ false)
          (Dict.has pc.templates name) _ _ (λ _. h n)
          (λ free. put_keeps pc.prompts pc.templates name n _ (h n) free))
apply_op_keeps (update name description none now) pc n h = ground (arith, h n)
apply_op_keeps (update name description (some f) now) pc n h =
    if_cases (λ (c : Changed PromptsCapability). both_at c.state n ≡ false)
      (Dict.has pc.prompts name) _ _
      (λ there.
        put_keeps pc.prompts pc.templates name n _ (h n)
          (other_free pc.prompts pc.templates name (h name) there))
      (λ _. h n)
apply_op_keeps (no_prompt name) pc n h = ground (arith, h n, Dict.get-remove pc.prompts name n)
apply_op_keeps (template name description arguments none now) pc n h = ground (arith, h n)
apply_op_keeps (template name description arguments (some f) now) pc n h =
    if_cases (λ (c : Changed PromptsCapability). both_at c.state n ≡ false)
      (Dict.has pc.templates name) _ _ (λ _. h n)
      (λ _.
        if_cases (λ (c : Changed PromptsCapability). both_at c.state n ≡ false)
          (Dict.has pc.prompts name) _ _ (λ _. h n)
          (λ free. template_keeps pc.prompts pc.templates name n _ (h n) free))
apply_op_keeps (no_template name) pc n h = ground (arith, h n, Dict.get-remove pc.templates name n)

run_ops_keeps :
    (ops : List Op) (pc : PromptsCapability)
    → ((k : String) → both_at pc k ≡ false)
    → (n : String) → both_at (run_ops ops pc) n ≡ false
unfolding run_ops
run_ops_keeps [] pc h = h
run_ops_keeps (op ∷ ops) pc h = run_ops_keeps ops (apply_op op pc) (λ n. apply_op_keeps op pc n h)

-- After any operations on an empty registry no name is both a prompt and a template, and so the
-- lookup of a stored prompt, and of a stored template, gives that prompt or template itself.
pub run_ops-find_prompt :
    (ops : List Op) (n : String)
    → let pc : PromptsCapability = run_ops ops new_prompts_capability in
      (both_at pc n ≡ false)
      × ((p : Prompt) → Dict.get pc.prompts n ≡ some p → find_prompt pc n ≡ some p)
      × ((p : Prompt) → Dict.get pc.templates n ≡ some p → find_prompt pc n ≡ some p)
unfolding new_prompts_capability find_prompt Dict.get
run_ops-find_prompt ops n =
    let pc : PromptsCapability = run_ops ops new_prompts_capability in
    let free : both_at pc n ≡ false = run_ops_keeps ops new_prompts_capability (λ k. refl) n in
    (free, λ p found. ground (arith, found), λ p found. ground (arith, free, found))
