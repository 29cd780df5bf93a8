-- ===== src/Validators/Rush.antt =====
-- The first messages of a session that come at once: `getLimiters` of
-- server/mcp/validators/throttling.go loads the parameter and stores a new pair under a read lock
-- only, so that each message that loads it before another has stored one makes a pair of its own.
use gate4ai.Prelude.{
  ℕ, zero, suc, ◌+◌, ◌*◌, ◌≤◌, ◌<◌, ◌≡◌, refl, ap, Bool, true, false, List, [], ◌∷◌, arith, length,
  some, none, sym, ◌∙◌, ℤ,
}
use gate4ai.Validators.{chosen, get_limiters, Throttled, magnitude}
use gate4ai.Validators.Burst.{
  Move, Burst, start_burst, burst_step, burst_step-le, left-limiter_of, new_limiters,
}

-- A message loads the parameter; one that found none stores its pair; and one that has the pair with
-- the index calls a limiter of it.
pub data Act : Type 0 where
  loads stores : Act
  asks : ℕ → Move → Act

-- Whether a pair is stored, how many messages found none and have not stored theirs, and the
-- pairs that were made, the last one first.
pub record Rush (L : Type 0) : Type 0 where
  pub is_stored : Bool
  pub making : ℕ
  pub pairs : List (Burst L)

abbrev pub no_pairs : {L : Type 0} → Rush L
no_pairs = record { is_stored = false; making = 0; pairs = [] }

load_pair : {L : Type 0} → Bool → Rush L → Rush L
load_pair true r = r
load_pair false r = record r { making = suc r.making }

store_pair : {L : Type 0} → Burst L → ℕ → Rush L → Rush L
store_pair fresh zero r = r
store_pair fresh (suc n) r = record { is_stored = true; making = n; pairs = fresh ∷ r.pairs }

module _ {L : Type 0} (allow : L → Bool × L) where
  ask_of : ℕ → Move → List (Burst L) → List (Burst L)
  ask_of i move [] = []
  ask_of zero move (b ∷ bs) = burst_step allow b move ∷ bs
  ask_of (suc i) move (b ∷ bs) = b ∷ ask_of i move bs

  unfoldable pub rush_step : Burst L → Rush L → Act → Rush L
  unfolding load_pair store_pair ask_of
  rush_step fresh r loads = load_pair r.is_stored r
  rush_step fresh r stores = store_pair fresh r.making r
  rush_step fresh r (asks i move) = record r { pairs = ask_of i move r.pairs }

  unfoldable pub run_rush : Burst L → List Act → Rush L → Rush L
  unfolding rush_step
  run_rush fresh [] r = r
  run_rush fresh (act ∷ acts) r = run_rush fresh acts (rush_step fresh r act)

-- How many messages were accepted.
unfoldable pub all_passed : {L : Type 0} → List (Burst L) → ℕ
all_passed [] = 0
all_passed (b ∷ bs) = b.passed + all_passed bs

-- How often the parameter was loaded.
unfoldable pub load_count : List Act → ℕ
load_count [] = 0
load_count (loads ∷ acts) = suc (load_count acts)
load_count (stores ∷ acts) = load_count acts
load_count (asks i move ∷ acts) = load_count acts

suc_times : (n k : ℕ) → suc n * k ≡ k + n * k
suc_times n k = omega arith

module _ {L : Type 0} (allow : L → Bool × L) where
  length-ask_of :
      (i : ℕ) (move : Move) (bs : List (Burst L)) → length (ask_of allow i move bs) ≡ length bs
  unfolding ask_of
  length-ask_of i move [] = refl
  length-ask_of zero move (b ∷ bs) = refl
  length-ask_of (suc i) move (b ∷ bs) = ap suc (length-ask_of i move bs)

  load_pair-making :
      (is_stored : Bool) (r : Rush L)
      → let r' = load_pair is_stored r in (r'.making ≤ suc r.making) × (r'.pairs ≡ r.pairs)
  unfolding load_pair
  load_pair-making true r = (omega arith, refl)
  load_pair-making false r = (omega arith, refl)

  load_pair-stored : (is_stored : Bool) (r : Rush L) → is_stored ≡ true → load_pair is_stored r ≡ r
  unfolding load_pair
  load_pair-stored true r h = refl
  load_pair-stored false r h = absurd (cc)

  store_pair-none : (fresh : Burst L) (n : ℕ) (r : Rush L) → n ≡ 0 → store_pair fresh n r ≡ r
  unfolding store_pair
  store_pair-none fresh zero r h = refl
  store_pair-none fresh (suc n) r h = absurd (omega (arith, h))

  store_pair-making :
      (fresh : Burst L) (n : ℕ) (r : Rush L)
      → let r' = store_pair fresh n r in
        r.making ≡ n → r'.making + length r'.pairs ≡ r.making + length r.pairs
  unfolding store_pair
  store_pair-making fresh zero r h = refl
  store_pair-making fresh (suc n) r h = omega (arith, h)

  -- Each pair comes from one load.
  run_rush-load_count :
      (fresh : Burst L) (acts : List Act) (r : Rush L)
      → let r' = run_rush allow fresh acts r in
        r'.making + length r'.pairs ≤ r.making + length r.pairs + load_count acts
  unfolding run_rush rush_step load_count
  run_rush-load_count fresh [] r = omega arith
  run_rush-load_count fresh (loads ∷ acts) r =
      let load = load_pair-making r.is_stored r in
      omega
        (arith, run_rush-load_count fresh acts (load_pair r.is_stored r), load.0, ap length load.1)
  run_rush-load_count fresh (stores ∷ acts) r = omega (
    arith,
    run_rush-load_count fresh acts (store_pair fresh r.making r),
    store_pair-making fresh r.making r refl,
  )
  run_rush-load_count fresh (asks i move ∷ acts) r = omega (
    arith,
    run_rush-load_count fresh acts (record r { pairs = ask_of allow i move r.pairs }),
    length-ask_of i move r.pairs,
  )

  -- Once a pair is stored and no message has still to store one, no other is made.
  run_rush-stored :
      (fresh : Burst L) (acts : List Act) (r : Rush L)
      → r.is_stored ≡ true
      → r.making ≡ 0
      → length (run_rush allow fresh acts r).pairs ≡ length r.pairs
  unfolding run_rush rush_step store_pair
  run_rush-stored fresh [] r stored made = refl
  run_rush-stored fresh (loads ∷ acts) r stored made =
      ap (λ x. length (run_rush allow fresh acts x).pairs) (load_pair-stored r.is_stored r stored)
      ∙ run_rush-stored fresh acts r stored made
  run_rush-stored fresh (stores ∷ acts) r stored made =
      ap (λ x. length (run_rush allow fresh acts x).pairs) (store_pair-none fresh r.making r made)
      ∙ run_rush-stored fresh acts r stored made
  run_rush-stored fresh (asks i move ∷ acts) r stored made =
      run_rush-stored fresh acts (record r { pairs = ask_of allow i move r.pairs }) stored made
      ∙ length-ask_of i move r.pairs

module _ {L : Type 0} (new_limiter : ℕ → ℕ → ℕ → L) (allow : L → Bool × L) (left : L → ℕ)
    (full : (n seconds burst : ℕ) → left (new_limiter n seconds burst) ≤ burst)
    (takes : (l : L) → (allow l).0 ≡ true → left (allow l).1 < left l)
    (keeps : (l : L) → (allow l).0 ≡ false → left (allow l).1 ≤ left l) where
  second_account : List (Burst L) → ℕ
  second_account [] = 0
  second_account (b ∷ bs) = b.passed + left b.per_second + second_account bs

  minute_account : List (Burst L) → ℕ
  minute_account [] = 0
  minute_account (b ∷ bs) = b.passed + b.between + left b.per_minute + minute_account bs

  -- What a pair may still let through, for each limiter, is bounded by the pairs that were made.
  record IsBounded (rps rpm : ℕ) (r : Rush L) : Type 0 where
    per_second : second_account r.pairs ≤ length r.pairs * rps
    per_minute : minute_account r.pairs ≤ length r.pairs * rpm

  ask_of-le :
      (i : ℕ) (move : Move) (bs : List (Burst L))
      → let cs = ask_of allow i move bs in
        (second_account cs ≤ second_account bs)
        × (minute_account cs ≤ minute_account bs)
        × (length cs ≡ length bs)
  unfolding ask_of second_account minute_account
  ask_of-le i move [] = (omega arith, omega arith, refl)
  ask_of-le zero move (b ∷ bs) =
      let one = burst_step-le new_limiter allow left full takes keeps b move in
      (omega (arith, one.0), omega (arith, one.1), refl)
  ask_of-le (suc i) move (b ∷ bs) =
      let more = ask_of-le i move bs in
      (omega (arith, more.0), omega (arith, more.1), ap suc more.2)

  all_passed-le :
      (bs : List (Burst L))
      → (all_passed bs ≤ second_account bs) × (all_passed bs ≤ minute_account bs)
  unfolding all_passed second_account minute_account
  all_passed-le [] = (omega arith, omega arith)
  all_passed-le (b ∷ bs) =
      let more = all_passed-le bs in (omega (arith, more.0), omega (arith, more.1))

  store_pair-IsBounded :
      (rps rpm : ℕ) (a b : L) (n : ℕ) (r : Rush L)
      → left a ≤ rpm
      → left b ≤ rps
      → IsBounded rps rpm r
      → IsBounded rps rpm (store_pair (start_burst a b) n r)
  unfolding store_pair second_account minute_account
  store_pair-IsBounded rps rpm a b zero r minute second bounded = bounded
  store_pair-IsBounded rps rpm a b (suc n) r minute second bounded = record {
    per_second = omega (arith, second, bounded.per_second, suc_times (length r.pairs) rps);
    per_minute = omega (arith, minute, bounded.per_minute, suc_times (length r.pairs) rpm);
  }

  load_pair-IsBounded :
      (rps rpm : ℕ) (is_stored : Bool) (r : Rush L)
      → IsBounded rps rpm r
      → IsBounded rps rpm (load_pair is_stored r)
  unfolding load_pair
  load_pair-IsBounded rps rpm true r bounded = bounded
  load_pair-IsBounded rps rpm false r bounded = record {
    per_second = bounded.per_second;
    per_minute = bounded.per_minute;
  }

  rush_step-IsBounded :
      (rps rpm : ℕ) (a b : L) (r : Rush L) (act : Act)
      → left a ≤ rpm
      → left b ≤ rps
      → IsBounded rps rpm r
      → IsBounded rps rpm (rush_step allow (start_burst a b) r act)
  unfolding rush_step
  rush_step-IsBounded rps rpm a b r loads minute second bounded =
      load_pair-IsBounded rps rpm r.is_stored r bounded
  rush_step-IsBounded rps rpm a b r stores minute second bounded =
      store_pair-IsBounded rps rpm a b r.making r minute second bounded
  rush_step-IsBounded rps rpm a b r (asks i move) minute second bounded =
      let le = ask_of-le i move r.pairs in
      record {
        per_second = rw le.2 (omega (arith, le.0, bounded.per_second));
        per_minute = rw le.2 (omega (arith, le.1, bounded.per_minute));
      }

  run_rush-IsBounded :
      (rps rpm : ℕ) (a b : L) (acts : List Act) (r : Rush L)
      → left a ≤ rpm
      → left b ≤ rps
      → IsBounded rps rpm r
      → IsBounded rps rpm (run_rush allow (start_burst a b) acts r)
  unfolding run_rush
  run_rush-IsBounded rps rpm a b [] r minute second bounded = bounded
  run_rush-IsBounded rps rpm a b (act ∷ acts) r minute second bounded =
      run_rush-IsBounded rps rpm a b acts (rush_step allow (start_burst a b) r act) minute second
        (rush_step-IsBounded rps rpm a b r act minute second bounded)

  -- When the first messages of a session come at once, those accepted at one instant are at most
  -- the limit for a second, and at most the one for a minute, for each pair of limiters that was
  -- made, in whatever order the messages load the parameter, store a pair and call a limiter. There
  -- are no more pairs than loads; and only one, which is all of the limit, where the first message
  -- has stored its pair before another loads.
  pub accepted_of_pairs :
      (acts : List Act) (rps rpm : ℤ) (t : Throttled L) (a b : L)
      → t.limiters ≡ none
      → get_limiters new_limiter allow rps rpm t ≡ (some a, some b)
      → let r = run_rush allow (start_burst a b) acts no_pairs in
        let in_order = run_rush allow (start_burst a b) (loads ∷ stores ∷ acts) no_pairs in
        (all_passed r.pairs ≤ length r.pairs * magnitude (chosen new_limiter allow rps t.rps))
        × (all_passed r.pairs ≤ length r.pairs * magnitude (chosen new_limiter allow rpm t.rpm))
        × (length r.pairs ≤ load_count acts)
        × (length in_order.pairs ≡ 1)
  unfolding run_rush rush_step store_pair second_account minute_account
  accepted_of_pairs acts rps rpm t a b none_yet h =
      let fresh = start_burst a b in
      let r = run_rush allow fresh acts no_pairs in
      let made =
        sym (new_limiters new_limiter allow left full takes keeps rps rpm t none_yet) ∙ h in
      let second =
        left-limiter_of new_limiter allow left full takes keeps (chosen new_limiter allow rps t.rps)
          1 b (ap (λ p. p.1) made) in
      let minute =
        left-limiter_of new_limiter allow left full takes keeps (chosen new_limiter allow rpm t.rpm)
          60 a (ap (λ p. p.0) made) in
      let bounded =
        run_rush-IsBounded (magnitude (chosen new_limiter allow rps t.rps))
          (magnitude (chosen new_limiter allow rpm t.rpm)) a b acts no_pairs minute second
          (record { per_second = omega arith; per_minute = omega arith }) in
      let le = all_passed-le r.pairs in
      (
        omega (arith, le.0, bounded.per_second),
        omega (arith, le.1, bounded.per_minute),
        omega (arith, run_rush-load_count allow fresh acts no_pairs),
        run_rush-stored allow fresh acts
            (record { is_stored = true; making = 0; pairs = fresh ∷ [] }) refl refl,
      )
