-- ===== src/Dict.antt =====
-- A Go map with string keys: an association list that holds a key at most once. Iteration visits
-- the entries in the order of the list; Go's order is random, so theorems range over all lists.
use gate4ai.Prelude.{
  ◌≡◌, refl, Bool, Option, none, some, List, [], ◌∷◌, String, arith, ◌==◌, eq_iff, if◌then◌else◌,
  is_some, str_refl, ◌≢◌,
}

abbrev pub Dict {ℓ} : Type ℓ → Type ℓ
Dict V = List (String × V)

module _ {ℓ} {V : Type ℓ} where
  -- v, ok := m[k]
  unfoldable pub get : Dict V → String → Option V
  get [] k = none
  get ((j, v) ∷ m) k = if j == k then some v else get m k

  -- m[k] = v
  unfoldable pub put : Dict V → String → V → Dict V
  put [] k v = (k, v) ∷ []
  put ((j, w) ∷ m) k v = if j == k then (k, v) ∷ m else (j, w) ∷ put m k v

  -- delete(m, k)
  unfoldable pub remove : Dict V → String → Dict V
  remove [] k = []
  remove ((j, v) ∷ m) k = let rest = remove m k in if j == k then rest else (j, v) ∷ rest

  abbrev pub has : Dict V → String → Bool
  has m k = is_some (get m k)

  pub get-put :
      (m : Dict V) (k j : String) (v : V) → get (put m k v) j ≡ (if k == j then some v else get m j)
  unfolding get put
  get-put [] k j v = refl
  get-put ((i, w) ∷ m) k j v = ground (arith, get-put m k j v, eq_iff i k, eq_iff i j, eq_iff k j)

  pub get-remove :
      (m : Dict V) (k j : String) → get (remove m k) j ≡ (if k == j then none else get m j)
  unfolding get remove
  get-remove [] k j = ground arith
  get-remove ((i, w) ∷ m) k j = ground (arith, get-remove m k j, eq_iff i k, eq_iff i j, eq_iff k j)

  pub get-put_self : (m : Dict V) (k : String) (v : V) → get (put m k v) k ≡ some v
  get-put_self m k v = ground (arith, get-put m k k v, str_refl k)

  pub get-put_ne : (m : Dict V) (k j : String) (v : V) → k ≢ j → get (put m k v) j ≡ get m j
  get-put_ne m k j v h = ground (arith, get-put m k j v, eq_iff k j)

  pub get-remove_self : (m : Dict V) (k : String) → get (remove m k) k ≡ none
  get-remove_self m k = ground (arith, get-remove m k k, str_refl k)

  pub get-remove_ne : (m : Dict V) (k j : String) → k ≢ j → get (remove m k) j ≡ get m j
  get-remove_ne m k j h = ground (arith, get-remove m k j, eq_iff k j)

pub ruleset dict_laws = (get-put, get-remove)
