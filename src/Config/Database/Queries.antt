-- ===== src/Config/Database/Queries.antt =====
-- What the selections of Config/Database.antt hold: an element of a SELECT, a JOIN or a UNION
-- comes from rows that meet its condition.
use mathlib.Core.List.{Memᴰ}
use mathlib.Core.List.Memᴰ
use gate4ai.Prelude.{
  ◌≡◌, ◌⊎◌, inl, inr, refl, sym, Bool, true, false, List, [], ◌∷◌, String, ◌==◌, eq_iff, arith,
  if◌then◌else◌, Bool-cases,
}
use gate4ai.Config.Database.{select, join, contains, distinct}

module _ {A B : Type 0} (p : A → Bool) (f : A → B) where
  mem_select-cons :
      (x : A) (xs : List A) (b : B) (t : Bool)
      → p x ≡ t
      → Memᴰ b (if t then f x ∷ select p f xs else select p f xs)
      → ((p x ≡ true) × (b ≡ f x)) ⊎ Memᴰ b (select p f xs)
  mem_select-cons x xs b true h (Memᴰ.head e) = inl (h, e)
  mem_select-cons x xs b true h (Memᴰ.tail m) = inr m
  mem_select-cons x xs b false h m = inr m

  -- An element of a SELECT comes from a row that meets the condition.
  pub of_select :
      (xs : List A) (b : B)
      → Memᴰ b (select p f xs)
      → (a : A) × Memᴰ a xs × (p a ≡ true) × (b ≡ f a)
  unfolding select
  of_select [] b m = elim m [ ]
  of_select (x ∷ xs) b m = elim (mem_select-cons x xs b (p x) refl m) [
    | inl h ↦ (x, Memᴰ.head refl, h.0, h.1)
    | inr h ↦ let r = of_select xs b h in (r.0, Memᴰ.tail r.1, r.2, r.3)
  ]

  select-keeps :
      (b : B) (ys : List B) (y : B) (t : Bool) → Memᴰ b ys → Memᴰ b (if t then y ∷ ys else ys)
  select-keeps b ys y true m = Memᴰ.tail m
  select-keeps b ys y false m = m

  pub to_select : (xs : List A) (a : A) → Memᴰ a xs → p a ≡ true → Memᴰ (f a) (select p f xs)
  unfolding select
  to_select [] a m h = elim m [ ]
  to_select (x ∷ xs) a (Memᴰ.head e) h = rw (sym e, h) (Memᴰ.head refl)
  to_select (x ∷ xs) a (Memᴰ.tail m) h =
      select-keeps (f a) (select p f xs) (f x) (p x) (to_select xs a m h)

module _ {A B C : Type 0} (p : A → C → Bool) (f : A → B) (cs : List C) where
  -- An element of a JOIN comes from two rows that meet the condition.
  pub of_join :
      (xs : List A) (b : B)
      → Memᴰ b (join p f xs cs)
      → (a : A) × (c : C) × Memᴰ a xs × Memᴰ c cs × (p a c ≡ true) × (b ≡ f a)
  unfolding join
  of_join [] b m = elim m [ ]
  of_join (x ∷ xs) b m = elim (Memᴰ.append_cases (select (p x) (λ c. f x) cs) m) [
    | inl h ↦ let r = of_select (p x) (λ c. f x) cs b h in (x, r.0, Memᴰ.head refl, r.1, r.2, r.3)
    | inr h ↦ let r = of_join xs b h in (r.0, r.1, Memᴰ.tail r.2, r.3, r.4, r.5)
  ]

  pub to_join :
      (xs : List A) (a : A) (c : C)
      → Memᴰ a xs
      → Memᴰ c cs
      → p a c ≡ true
      → Memᴰ (f a) (join p f xs cs)
  unfolding join
  to_join [] a c m k h = elim m [ ]
  to_join (x ∷ xs) a c (Memᴰ.head e) k h =
      rw (sym e) (Memᴰ.append_left (join p f xs cs) (to_select (p a) (λ d. f a) cs c k h))
  to_join (x ∷ xs) a c (Memᴰ.tail m) k h =
      Memᴰ.append_right (select (p x) (λ d. f x) cs) (to_join xs a c m k h)

contains-Memᴰ : (s : String) (xs : List String) → contains s xs ≡ true → Memᴰ s xs
unfolding contains
contains-Memᴰ s [] h = absurd (ground (arith, h))
contains-Memᴰ s (x ∷ xs) h = elim (Bool-cases (s == x)) [
  | inl e ↦ Memᴰ.head ((eq_iff s x).0 e)
  | inr e ↦ Memᴰ.tail (contains-Memᴰ s xs (ground (arith, h, e)))
]

distinct_cons :
    (x : String) (xs : List String) (s : String) (t : Bool)
    → (t ≡ true → Memᴰ x xs)
    → (s ≡ x) ⊎ Memᴰ s xs
    → Memᴰ s (if t then xs else x ∷ xs)
distinct_cons x xs s true h (inl e) = Memᴰ.cast e (h refl)
distinct_cons x xs s true h (inr m) = m
distinct_cons x xs s false h (inl e) = Memᴰ.head e
distinct_cons x xs s false h (inr m) = Memᴰ.tail m

of_distinct_cons :
    (x : String) (xs : List String) (s : String) (t : Bool)
    → Memᴰ s (if t then xs else x ∷ xs)
    → (s ≡ x) ⊎ Memᴰ s xs
of_distinct_cons x xs s true m = inr m
of_distinct_cons x xs s false m = Memᴰ.cases_cons m

pub to_distinct : (xs : List String) (s : String) → Memᴰ s xs → Memᴰ s (distinct xs)
unfolding distinct
to_distinct [] s m = m
to_distinct (x ∷ xs) s (Memᴰ.head e) =
    distinct_cons x (distinct xs) s (contains x (distinct xs)) (contains-Memᴰ x (distinct xs))
      (inl e)
to_distinct (x ∷ xs) s (Memᴰ.tail m) =
    distinct_cons x (distinct xs) s (contains x (distinct xs)) (contains-Memᴰ x (distinct xs))
      (inr (to_distinct xs s m))

pub of_distinct : (xs : List String) (s : String) → Memᴰ s (distinct xs) → Memᴰ s xs
unfolding distinct
of_distinct [] s m = m
of_distinct (x ∷ xs) s m = elim (of_distinct_cons x (distinct xs) s (contains x (distinct xs)) m) [
  | inl e ↦ Memᴰ.head e
  | inr k ↦ Memᴰ.tail (of_distinct xs s k)
]
