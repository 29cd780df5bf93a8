-- ===== src/Config/Yaml/Keys.antt =====
-- Which keys of the file in shared/config/yaml.go are accepted after `Update`, and for whom.
use gate4ai.Dict
use gate4ai.Dict.{Dict}
use gate4ai.Prelude.{
  ◌≡◌, ◌⊎◌, inl, inr, refl, ◌∙◌, some, List, [], ◌∷◌, String, ◌==◌, eq_iff, arith, Bool-cases,
}
use gate4ai.Config.Yaml.{UserFile, put_keys, key_hashes}

-- The key is in the list.
abbrev pub Has : String → List String → Type 0
Has key [] = ⊥
Has key (k ∷ keys) = (k ≡ key) ⊎ Has key keys

-- Some user of the file lists the key; a user of that name does.
abbrev pub IsKey : String → Dict UserFile → Type 0
IsKey key [] = ⊥
IsKey key ((u, user) ∷ users) = Has key user.keys ⊎ IsKey key users

abbrev pub IsKeyOf : String → String → Dict UserFile → Type 0
IsKeyOf user_id key [] = ⊥
IsKeyOf user_id key ((u, user) ∷ users) =
    ((u ≡ user_id) × Has key user.keys) ⊎ IsKeyOf user_id key users

-- A table after the keys of one user: those keys are theirs, and the others as before.
put_keys_lem :
    (hashes : Dict String) (u : String) (keys : List String) (key : String)
    → (Has key keys × (Dict.get (put_keys hashes u keys) key ≡ some u))
      ⊎ ((¬ Has key keys) × (Dict.get (put_keys hashes u keys) key ≡ Dict.get hashes key))
unfolding put_keys
put_keys_lem hashes u [] key = inr (λ h. h, refl)
put_keys_lem hashes u (k ∷ keys) key = elim (put_keys_lem (Dict.put hashes k u) u keys key) [
  | inl (h, e) ↦ inl (inr h, e)
  | inr (h, e) ↦ elim (Bool-cases (k == key)) [
    | inl p ↦ inl (inl ((eq_iff k key).0 p), e ∙ ground (arith, Dict.get-put hashes k key u, p))
    | inr p ↦ inr (
      λ q. elim q [ inl r ↦ cc (p, (eq_iff k key).1 r) | inr r ↦ h r ],
      e ∙ ground (arith, Dict.get-put hashes k key u, p),
    )
  ]
]

pub key_hashes_lem :
    (hashes : Dict String) (users : Dict UserFile) (key : String)
    → (IsKey key users
        × ((u : String) × (Dict.get (key_hashes hashes users) key ≡ some u) × IsKeyOf u key users))
      ⊎ ((¬ IsKey key users) × (Dict.get (key_hashes hashes users) key ≡ Dict.get hashes key))
unfolding key_hashes
key_hashes_lem hashes [] key = inr (λ h. h, refl)
key_hashes_lem hashes ((u, user) ∷ users) key =
    elim (key_hashes_lem (put_keys hashes u user.keys) users key) [
      | inl (h, (v, e, o)) ↦ inl (inr h, (v, e, inr o))
      | inr (h, e) ↦ elim (put_keys_lem hashes u user.keys key) [
        | inl (k, f) ↦ inl (inl k, (u, e ∙ f, inl (refl, k)))
        | inr (k, f) ↦ inr (λ q. elim q [ inl r ↦ k r | inr r ↦ h r ], e ∙ f)
      ]
    ]
