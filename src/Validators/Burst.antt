-- ===== src/Validators/Burst.antt =====
-- How many messages the throttling of server/mcp/validators/throttling.go lets through at once. Once
-- a session has its pair of limiters, `Validate` is two calls of `Allow`, and those of messages that
-- are put at the same time interleave.
use gate4ai.Prelude.{
  ℕ, zero, suc, ◌+◌, ◌≤◌, ◌<◌, ◌≡◌, ◌↔◌, inl, inr, refl, sym, ap, ◌∙◌, Bool, true, false, none,
  some, List, [], ◌∷◌, arith, ltb, if◌then◌else◌, Bool-cases, ℤ, pos, negsuc,
}
use gate4ai.Validators.{
  limiter_of, kept_or_new, chosen, magnitude, Throttled, accepted, throttle, get_limiters,
  check_minute, check_second,
}

-- The next call of `Allow`: the first one of some message, or the second one of a message whose
-- first was granted.
pub data Move : Type 0 where
  ask_minute ask_second : Move

-- The limiters, the messages between their two calls, and those accepted.
pub record Burst (L : Type 0) : Type 0 where
  pub per_minute : L
  pub per_second : L
  pub between : ℕ
  pub passed : ℕ

abbrev pub start_burst : {L : Type 0} → L → L → Burst L
start_burst a b = record { per_minute = a; per_second = b; between = 0; passed = 0 }

module _ {L : Type 0} (allow : L → Bool × L) where
  ask_between : ℕ → Burst L → Burst L
  ask_between zero b = b
  ask_between (suc n) b = record b {
    per_second = (allow b.per_second).1;
    between = n;
    passed = if (allow b.per_second).0 then suc b.passed else b.passed;
  }

  unfoldable pub burst_step : Burst L → Move → Burst L
  unfolding ask_between
  burst_step b ask_minute = record b {
    per_minute = (allow b.per_minute).1;
    between = if (allow b.per_minute).0 then suc b.between else b.between;
  }
  burst_step b ask_second = ask_between b.between b

  unfoldable pub run_burst : List Move → Burst L → Burst L
  unfolding burst_step
  run_burst [] b = b
  run_burst (move ∷ moves) b = run_burst moves (burst_step b move)

-- `left` is what a limiter still lets through at one instant: an event that is allowed uses one
-- token, one that is not changes nothing, and a new limiter holds at most its burst.
module _ {L : Type 0} (new_limiter : ℕ → ℕ → ℕ → L) (allow : L → Bool × L) (left : L → ℕ)
    (full : (n seconds burst : ℕ) → left (new_limiter n seconds burst) ≤ burst)
    (takes : (l : L) → (allow l).0 ≡ true → left (allow l).1 < left l)
    (keeps : (l : L) → (allow l).0 ≡ false → left (allow l).1 ≤ left l) where
  ask_between-le :
      (n : ℕ) (b : Burst L)
      → b.between ≡ n
      → let c = ask_between allow n b in
        (c.passed + left c.per_second ≤ b.passed + left b.per_second)
        × (c.passed + c.between + left c.per_minute ≤ b.passed + b.between + left b.per_minute)
  unfolding ask_between
  ask_between-le zero b h = (omega arith, omega arith)
  ask_between-le (suc n) b h = elim (Bool-cases (allow b.per_second).0) [
    | inl e ↦ rw e (omega (arith, takes b.per_second e), omega (arith, h))
    | inr e ↦ rw e (omega (arith, keeps b.per_second e), omega (arith, h))
  ]

  -- One call of `Allow` gives nothing to either account.
  pub burst_step-le :
      (b : Burst L) (move : Move)
      → let c = burst_step allow b move in
        (c.passed + left c.per_second ≤ b.passed + left b.per_second)
        × (c.passed + c.between + left c.per_minute ≤ b.passed + b.between + left b.per_minute)
  unfolding burst_step
  burst_step-le b ask_second = ask_between-le b.between b refl
  burst_step-le b ask_minute = elim (Bool-cases (allow b.per_minute).0) [
    | inl e ↦ rw e (omega arith, omega (arith, takes b.per_minute e))
    | inr e ↦ rw e (omega arith, omega (arith, keeps b.per_minute e))
  ]

  run_burst-le :
      (moves : List Move) (b : Burst L)
      → let c = run_burst allow moves b in
        (c.passed ≤ b.passed + left b.per_second)
        × (c.passed ≤ b.passed + b.between + left b.per_minute)
  unfolding run_burst
  run_burst-le [] b = (omega arith, omega arith)
  run_burst-le (move ∷ moves) b =
      let one = burst_step-le b move in
      let more = run_burst-le moves (burst_step allow b move) in
      (omega (arith, one.0, more.0), omega (arith, one.1, more.1))

  pub left-limiter_of :
      (n : ℤ) (seconds : ℕ) (l : L)
      → limiter_of new_limiter allow n seconds ≡ some l
      → left l ≤ magnitude n
  unfolding limiter_of magnitude
  left-limiter_of (pos n) seconds l h = elim (Bool-cases (ltb 0 n)) [
    | inl e ↦
        let same : new_limiter n seconds n ≡ l = ground (arith, h, e) in
        rw (sym same) (full n seconds n)
    | inr e ↦ absurd (ground (arith, h, e))
  ]
  left-limiter_of (negsuc n) seconds l h = absurd (ground (arith, h))

  -- A message that nothing interrupts makes the two calls one after the other.
  throttle-burst_step :
      (rps rpm : ℤ) (t : Throttled L) (a b : L)
      → get_limiters new_limiter allow rps rpm t ≡ (some a, some b)
      → let c = run_burst allow (ask_minute ∷ ask_second ∷ []) (start_burst a b) in
        let r = throttle new_limiter allow rps rpm t in
        (r.1.limiters ≡ some (some c.per_minute, some c.per_second))
        × ((r.0 ≡ accepted) ↔ (c.passed ≡ 1))
  unfolding throttle check_minute check_second run_burst burst_step ask_between
  throttle-burst_step rps rpm t a b h = rw h (elim (Bool-cases (allow a).0) [
    | inl e ↦ elim (Bool-cases (allow b).0) [
      | inl f ↦ rw (e, f) (refl, (λ x. refl, λ x. refl))
      | inr f ↦ rw (e, f) (refl, (λ x. absurd (cc), λ x. absurd (omega (arith, x))))
    ]
    | inr e ↦ rw e (refl, (λ x. absurd (cc), λ x. absurd (omega (arith, x))))
  ])

  pub new_limiters :
      (rps rpm : ℤ) (t : Throttled L)
      → t.limiters ≡ none
      → get_limiters new_limiter allow rps rpm t ≡ (
        limiter_of new_limiter allow (chosen new_limiter allow rpm t.rpm) 60,
        limiter_of new_limiter allow (chosen new_limiter allow rps t.rps) 1,
      )
  unfolding get_limiters
  new_limiters rps rpm t h = ap (kept_or_new new_limiter allow rps rpm t) h

  -- Once a session that had no limiters has its pair, a burst at one instant gets at most as many
  -- messages accepted as its limit for a second allows, and at most as many as its limit for a
  -- minute, in whatever order the calls for its messages come: its own limits where it has positive
  -- ones, and otherwise the defaults. A message alone makes the same calls.
  pub accepted_bounded :
      (moves : List Move) (rps rpm : ℤ) (t : Throttled L) (a b : L)
      → t.limiters ≡ none
      → get_limiters new_limiter allow rps rpm t ≡ (some a, some b)
      → let c = run_burst allow moves (start_burst a b) in
        let alone = run_burst allow (ask_minute ∷ ask_second ∷ []) (start_burst a b) in
        let r = throttle new_limiter allow rps rpm t in
        (c.passed ≤ magnitude (chosen new_limiter allow rps t.rps))
        × (c.passed ≤ magnitude (chosen new_limiter allow rpm t.rpm))
        × (r.1.limiters ≡ some (some alone.per_minute, some alone.per_second))
        × ((r.0 ≡ accepted) ↔ (alone.passed ≡ 1))
  accepted_bounded moves rps rpm t a b none_yet h =
      let le = run_burst-le moves (start_burst a b) in
      let made = sym (new_limiters rps rpm t none_yet) ∙ h in
      let alone = throttle-burst_step rps rpm t a b h in
      (
        omega (
          arith,
          le.0,
          left-limiter_of (chosen new_limiter allow rps t.rps) 1 b (ap (λ p. p.1) made),
        ),
        omega (
          arith,
          le.1,
          left-limiter_of (chosen new_limiter allow rpm t.rpm) 60 a (ap (λ p. p.0) made),
        ),
        alone.0,
        alone.1,
      )
