-- ===== src/Validators/Examples.antt =====
-- The theorems of the validators at a limiter that only counts down, and concrete messages.
use gate4ai.Prelude.{
  ℕ, ◌-◌, ◌≤◌, ◌≡◌, ◌↔◌, refl, Bool, false, none, some, List, [], ◌∷◌, String, arith, ltb, pos, ◌*◌,
  length,
}
use gate4ai.Validators.{
  Throttled, magnitude, chosen, throttle, accepted, get_limiters, create_default_validators,
  check_method,
}
use gate4ai.Validators.Accepted.{AllAcceptable, put-AllAcceptable}
use gate4ai.Validators.Burst.{
  Move, ask_minute, ask_second, start_burst, run_burst, accepted_bounded,
}
use gate4ai.Validators.Rush.{
  Act, loads, stores, asks, no_pairs, run_rush, rush_step, all_passed, load_count,
  accepted_of_pairs,
}
use gate4ai.Input.{Input, put, new_input, add_validators, start}
use gate4ai.Jsonrpc.{Message, number, is_empty, plain}
use gate4ai.Session.{new_session}

abbrev bytes : String → ℕ
bytes s = 7

abbrev tokens : ℕ → ℕ → ℕ → ℕ
tokens n seconds burst = burst

abbrev take_token : ℕ → Bool × ℕ
take_token l = (ltb 0 l, l - 1)

abbrev unlimited : Throttled ℕ
unlimited = record { rpm = none; rps = some (pos 2); limiters = none }

-- Three messages at once, each asked of both limiters, in an order in which they overlap.
abbrev three_messages : List Move
three_messages = ask_minute ∷ ask_minute ∷ ask_second ∷ ask_minute ∷ ask_second ∷ ask_second ∷ []

-- Two pass where the session's own limit is two in a second.
two_of_three : (run_burst take_token three_messages (start_burst 600 2)).passed ≡ 2
unfolding run_burst
two_of_three = refl

accepted_bounded_example :
    let c = run_burst take_token three_messages (start_burst 600 2) in
    let alone = run_burst take_token (ask_minute ∷ ask_second ∷ []) (start_burst 600 2) in
    let r = throttle tokens take_token (pos 60) (pos 600) unlimited in
    (c.passed ≤ magnitude (chosen tokens take_token (pos 60) (some (pos 2))))
    × (c.passed ≤ magnitude (chosen tokens take_token (pos 600) none))
    × (r.1.limiters ≡ some (some alone.per_minute, some alone.per_second))
    × ((r.0 ≡ accepted) ↔ (alone.passed ≡ 1))
unfolding get_limiters
accepted_bounded_example =
    accepted_bounded tokens take_token (λ l. l) (λ n s b. omega arith) (λ l h. ground arith)
      (λ l h. ground arith) three_messages (pos 60) (pos 600) unlimited 600 2 refl refl

-- Two messages that load the parameter before either has stored its pair, and then use both pairs.
abbrev two_pairs : List Act
two_pairs =
    loads
    ∷ loads
    ∷ stores
    ∷ stores
    ∷ asks 0 ask_minute
    ∷ asks 0 ask_second
    ∷ asks 1 ask_minute
    ∷ asks 1 ask_second
    ∷ asks 0 ask_minute
    ∷ asks 0 ask_second
    ∷ asks 1 ask_minute
    ∷ asks 1 ask_second
    ∷ []

-- Four pass at once, where the session's limit is two in a second.
four_at_once : all_passed (run_rush take_token (start_burst 600 2) two_pairs no_pairs).pairs ≡ 4
unfolding all_passed run_rush rush_step run_burst
four_at_once = refl

accepted_of_pairs_example :
    let r = run_rush take_token (start_burst 600 2) two_pairs no_pairs in
    let in_order = run_rush take_token (start_burst 600 2) (loads ∷ stores ∷ two_pairs) no_pairs in
    (all_passed r.pairs
      ≤ length r.pairs * magnitude (chosen tokens take_token (pos 60) (some (pos 2))))
    × (all_passed r.pairs ≤ length r.pairs * magnitude (chosen tokens take_token (pos 600) none))
    × (length r.pairs ≤ load_count two_pairs)
    × (length in_order.pairs ≡ 1)
unfolding get_limiters
accepted_of_pairs_example =
    accepted_of_pairs tokens take_token (λ l. l) (λ n s b. omega arith) (λ l h. ground arith)
      (λ l h. ground arith) two_pairs (pos 60) (pos 600) unlimited 600 2 refl refl

abbrev ping : Message
ping = record {
  id = some (number 1);
  method = some "ping";
  params = none;
  result = none;
  error = none;
  processed = false;
  session = none;
}

abbrev guarded : Input (Throttled ℕ)
guarded = start (add_validators new_input (create_default_validators bytes tokens take_token))

put-AllAcceptable_example :
    AllAcceptable bytes tokens take_token
      (put guarded ping (new_session "r" "s" 0) unlimited 1).0.input
unfolding start add_validators new_input
put-AllAcceptable_example =
    put-AllAcceptable bytes tokens take_token guarded refl ping (new_session "r" "s" 0) unlimited 1
      tt

-- `tasks/resubscribe` has a handler, but is not on the list.
resubscribe_refused :
    check_method (record ping { method = some "tasks/resubscribe" })
    ≡ some (plain "invalid method: tasks/resubscribe")
unfolding check_method is_empty
resubscribe_refused = refl
