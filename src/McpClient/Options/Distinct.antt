-- ===== src/McpClient/Options/Distinct.antt =====
-- No header of gateway/clients/mcpClient/sessionOption.go stands twice in different case.
use gate4ai.Dict
use gate4ai.Dict.{Dict, get-put, get-put_ne, get-remove}
use gate4ai.McpClient.Options.{lower_keys, without_other, merge, with_headers}
use gate4ai.Prelude.{
  ◌≡◌, ◌≢◌, inl, inr, refl, sym, ap, ◌∙◌, true, false, Option, none, some, [], ◌∷◌, String, ◌==◌,
  eq_iff, arith, is_some, Bool-cases, str_refl,
}

-- Keys of the same lower case are the same.
unfoldable pub IsDistinct : (String → String) → Dict String → Type 0
IsDistinct to_lower m =
    (j k : String) → Dict.has m j ≡ true → Dict.has m k ≡ true → to_lower j ≡ to_lower k → j ≡ k

-- The second map has each key of the first under its lower case.
Tracks : (String → String) → Dict String → Dict String → Type 0
Tracks to_lower m existing =
    (k : String) → Dict.has m k ≡ true → Dict.get existing (to_lower k) ≡ some k

has-empty : (k : String) → Dict.has {V = String} [] k ≡ false
unfolding Dict.get
has-empty k = refl

has-head : (j v : String) (more : Dict String) → Dict.has ((j, v) ∷ more) j ≡ true
unfolding Dict.get
has-head j v more = rw (str_refl j) refl

has-cons :
    (j v : String) (more : Dict String) (k : String)
    → Dict.has more k ≡ true
    → Dict.has ((j, v) ∷ more) k ≡ true
unfolding Dict.get
has-cons j v more k h = ground (arith)

has-tail :
    (j v : String) (more : Dict String) (k : String)
    → j ≢ k
    → Dict.has ((j, v) ∷ more) k ≡ true
    → Dict.has more k ≡ true
unfolding Dict.get
has-tail j v more k ne h = ground (arith, eq_iff j k)

has-without_other :
    (to_lower : String → String) (m : Dict String) (key : String) (o : Option String) (k : String)
    → Dict.has (without_other to_lower m key o) k ≡ true
    → (Dict.has m k ≡ true) × ((old : String) → o ≡ some old → old ≢ key → old ≢ k)
unfolding without_other
has-without_other to_lower m key none k h = (h, λ old e. absurd (cc))
has-without_other to_lower m key (some old) k h =
    let removed = get-remove m old k in
    let is_key = eq_iff old key in
    let is_k = eq_iff old k in
    (
      ground (arith, removed, is_k),
      λ other e ne same.
          let q : old ≡ other = cc in ground (arith, removed, is_key, is_k, q, ne, same),
    )

module _ (to_lower : String → String) where
  Tracks-IsDistinct :
      (m existing : Dict String) → Tracks to_lower m existing → IsDistinct to_lower m
  unfolding Tracks IsDistinct
  Tracks-IsDistinct m existing h j k hj hk same =
      let a = h j hj in
      let b = h k hk in
      let c : Dict.get existing (to_lower k) ≡ some j = sym (ap (Dict.get existing) same) ∙ a in cc

  lower_keys-Tracks :
      (m : Dict String) → IsDistinct to_lower m → Tracks to_lower m (lower_keys to_lower m)
  unfolding Tracks IsDistinct lower_keys
  lower_keys-Tracks [] d k h = cc (has-empty k, h)
  lower_keys-Tracks ((j, v) ∷ more) d k h =
      let rest =
        lower_keys-Tracks more
          (λ a b ha hb. d a b (has-cons j v more a ha) (has-cons j v more b hb)) in
      rw (get-put (lower_keys to_lower more) (to_lower j) (to_lower k) j)
        (elim (Bool-cases (to_lower j == to_lower k)) [
          | inl e ↦
              rw e (ap some (d j k (has-head j v more) h ((eq_iff (to_lower j) (to_lower k)).0 e)))
          | inr e ↦ rw e (
              rest k (
                has-tail j v more k
                  (λ q. ground (arith, eq_iff (to_lower j) (to_lower k), ap to_lower q)) h))
        ])

  put-Tracks :
      (m existing : Dict String) (key v : String)
      → Tracks to_lower m existing
      → Tracks to_lower
          (Dict.put (without_other to_lower m key (Dict.get existing (to_lower key))) key v)
          (Dict.put existing (to_lower key) key)
  unfolding Tracks
  put-Tracks m existing key v h k there =
      let o : Option String = Dict.get existing (to_lower key) in
      let left = has-without_other to_lower m key o k in
      rw (get-put existing (to_lower key) (to_lower k) key) (elim (Bool-cases (key == k)) [
        | inl e ↦ rw ((eq_iff key k).0 e) (rw (str_refl (to_lower k)) refl)
        | inr e ↦
            let old : Dict.has (without_other to_lower m key o) k ≡ true =
              sym (
                ap is_some (
                  get-put_ne (without_other to_lower m key o) key k v
                    (λ q. ground (arith, eq_iff key k))))
              ∙ there in
            let known = h k (left old).0 in
            elim (Bool-cases (to_lower key == to_lower k)) [
              | inl f ↦ absurd (
                  (left old).1 k
                    (ap (Dict.get existing) ((eq_iff (to_lower key) (to_lower k)).0 f) ∙ known)
                    (λ q. ground (arith, eq_iff key k)) refl)
              | inr f ↦ rw f known
            ]
      ])

  merge-Tracks :
      (headers existing m : Dict String)
      → Tracks to_lower m existing
      → IsDistinct to_lower (merge to_lower existing m headers)
  unfolding merge
  merge-Tracks [] existing m h = Tracks-IsDistinct m existing h
  merge-Tracks ((key, v) ∷ more) existing m h =
      merge-Tracks more _ _ (put-Tracks m existing key v h)

  -- Where no two headers of a session have names of the same lower case, so it is after any headers
  -- have been added, whatever their case.
  pub with_headers-IsDistinct :
      (headers m : Dict String)
      → IsDistinct to_lower m
      → IsDistinct to_lower (with_headers to_lower headers m)
  unfolding with_headers
  with_headers-IsDistinct headers m d =
      merge-Tracks headers (lower_keys to_lower m) m (lower_keys-Tracks m d)
