-- ===== src/Session/Sync/Steps/Pages.antt =====
-- What the callbacks of `SendRequestSync` (shared/session.go) come to in any order of their steps.
use gate4ai.Prelude.{
  ℕ, zero, suc, ◌+◌, ◌%◌, ◌^◌, ◌≤◌, ◌<◌, ◌≡◌, refl, sym, ap, ◌∙◌, false, Option, none, some, List,
  [], ◌∷◌, ◌++◌, String, arith, eqb, length, get_elem?,
}
use mathlib.Core.Path.{subst}
use gate4ai.Jsonrpc.{Message, Encoded}
use gate4ai.Requests.{Callback}
use gate4ai.Session.{Session}
use gate4ai.Session.Send.{sent, send_request}
use gate4ai.Session.Sync.{next_cursor, send_request_sync, started}
use gate4ai.Session.Sync.Steps.{
  Exchange, start_exchange, Move, answers, counts, sends, without, exchange_step, run_exchange,
  ask_next, answer, hand_on, count_down,
}

-- The sum of a weight over some messages. That two lists have the same sum for every weight says
-- that they have the same messages, each as often, in any order.
abbrev pub total : (Message → ℕ) → List Message → ℕ
total f [] = 0
total f (m ∷ ms) = f m + total f ms

total-append :
    (f : Message → ℕ) (xs ys : List Message) → total f (xs ++ ys) ≡ total f xs + total f ys
total-append f [] ys = omega arith
total-append f (x ∷ xs) ys = omega (arith, total-append f xs ys)

total-without :
    (f : Message → ℕ) (xs : List Message) (i : ℕ) (m : Message)
    → get_elem? xs i ≡ some m
    → f m + total f (without i xs) ≡ total f xs
total-without f [] i m h = absurd (cc)
total-without f (x ∷ xs) zero m h = let e : x ≡ m = ground arith in rw e refl
total-without f (x ∷ xs) (suc i) m h = omega (arith, total-without f xs i m h)

length-without :
    (xs : List Message) (i : ℕ) (m : Message)
    → get_elem? xs i ≡ some m
    → suc (length (without i xs)) ≡ length xs
length-without [] i m h = absurd (cc)
length-without (x ∷ xs) zero m h = refl
length-without (x ∷ xs) (suc i) m h = omega (arith, length-without xs i m h)

abbrev pub is_awaited : Option (Option String) → ℕ
is_awaited none = 0
is_awaited (some params) = 1

-- What still counts: the request that is not answered, and the callbacks that are not through.
abbrev pub unfinished : Exchange → ℕ
unfinished x = is_awaited x.awaited + length x.sending + x.counting

open_at : (n : ℕ) → 0 < n → eqb n 0 ≡ false
open_at n h = ground (arith, h)

open_while : (m n : ℕ) → 0 < m → 0 < n → eqb m 0 ≡ eqb n 0
open_while m n h k = open_at m h ∙ sym (open_at n k)

add_zero : (n : ℕ) → n + 0 ≡ n
add_zero n = omega arith

add_suc : (m n : ℕ) → m + suc n ≡ suc m + n
add_suc m n = omega arith

module _ (paginated : String → Option (Option String)) (encode : String → String)
    (peer : Option String → Message) where
  -- The answers so far to a request and to those for the pages that follow, the latest first, and
  -- the request that is not answered yet.
  pub data Pages (params : Option String) : List Message → Option (Option String) → Type 0 where
    first : Pages params [] (some params)
    last :
        (ms : List Message) (raw : Option String)
        → Pages params ms (some raw)
        → next_cursor paginated (peer raw).result ≡ none
        → Pages params (peer raw ∷ ms) none
    more :
        (ms : List Message) (raw : Option String) (cursor : String)
        → Pages params ms (some raw)
        → next_cursor paginated (peer raw).result ≡ some cursor
        → Pages params (peer raw ∷ ms) (some (some (encode cursor)))

  -- The counter is right and below a bound, the channel is closed where nothing is left, nothing
  -- has panicked, and each answer is handed on or waits for it.
  record IsSound (params : Option String) (bound : ℕ) (x : Exchange) : Type 0 where
    pub counted : x.call.pending_requests ≡ unfinished x
    pub bounded : unfinished x ≤ bound
    pub closed : x.call.is_closed ≡ eqb (unfinished x) 0
    pub calm : x.has_panicked ≡ false
    pub pages : List Message
    pub in_order : Pages params pages x.awaited
    pub all_there : (f : Message → ℕ) → total f x.call.delivered + total f x.sending ≡ total f pages

  widen :
      (params : Option String) (bound : ℕ) (x : Exchange)
      → IsSound params bound x
      → IsSound params (suc bound) x
  widen params bound x h = record {
    counted = h.counted;
    bounded = omega (arith, h.bounded);
    closed = h.closed;
    calm = h.calm;
    pages = h.pages;
    in_order = h.in_order;
    all_there = h.all_there;
  }

  ask_next-IsSound :
      (params : Option String) (bound : ℕ) (x : Exchange) (raw c : Option String)
      → bound < 4294967294
      → x.awaited ≡ some raw
      → next_cursor paginated (peer raw).result ≡ c
      → IsSound params bound x
      → IsSound params (suc bound) (ask_next paginated encode peer c (peer raw) x)
  unfolding ask_next
  ask_next-IsSound params bound x raw none small e k h = record {
    counted = omega (arith, h.counted, ap is_awaited e);
    bounded = omega (arith, h.bounded, ap is_awaited e);
    closed = h.closed ∙ ap (λ n. eqb n 0) (omega (arith, ap is_awaited e));
    calm = h.calm;
    pages = peer raw ∷ h.pages;
    in_order = last h.pages raw (subst (Pages params h.pages) e h.in_order) k;
    all_there = λ f. omega (arith, h.all_there f);
  }
  ask_next-IsSound params bound x raw (some cursor) small e k h = record {
    counted = omega (arith, h.counted, h.bounded, small, ap is_awaited e);
    bounded = omega (arith, h.bounded, ap is_awaited e);
    closed = h.closed ∙ open_while (unfinished x) _ (omega (arith, ap is_awaited e)) (omega arith);
    calm = h.calm;
    pages = peer raw ∷ h.pages;
    in_order = more h.pages raw cursor (subst (Pages params h.pages) e h.in_order) k;
    all_there = λ f. omega (arith, h.all_there f);
  }

  answer-IsSound :
      (params : Option String) (bound : ℕ) (x : Exchange) (o : Option (Option String))
      → bound < 4294967294
      → x.awaited ≡ o
      → IsSound params bound x
      → IsSound params (suc bound) (answer paginated encode peer o x)
  unfolding answer
  answer-IsSound params bound x none small e h = widen params bound x h
  answer-IsSound params bound x (some raw) small e h =
      ask_next-IsSound params bound x raw (next_cursor paginated (peer raw).result) small e refl h

  hand_on-IsSound :
      (params : Option String) (bound : ℕ) (x : Exchange) (i : ℕ) (o : Option Message)
      → get_elem? x.sending i ≡ o
      → IsSound params bound x
      → IsSound params (suc bound) (hand_on o i x)
  unfolding hand_on
  hand_on-IsSound params bound x i none e h = widen params bound x h
  hand_on-IsSound params bound x i (some m) e h =
      let len = length-without x.sending i m e in
      let is_open : x.call.is_closed ≡ false =
        h.closed ∙ open_at (unfinished x) (omega (arith, len)) in
      rw is_open (record {
        counted = omega (arith, h.counted, len);
        bounded = omega (arith, h.bounded, len);
        closed = sym is_open ∙ h.closed ∙ ap (λ n. eqb n 0) (omega (arith, len));
        calm = h.calm;
        pages = h.pages;
        in_order = h.in_order;
        all_there = λ f. omega (
          arith,
          h.all_there f,
          total-without f x.sending i m e,
          total-append f x.call.delivered (m ∷ []),
        );
      })

  count_down-IsSound :
      (params : Option String) (bound : ℕ) (x : Exchange) (n : ℕ)
      → bound < 4294967294
      → x.counting ≡ n
      → IsSound params bound x
      → IsSound params (suc bound) (count_down n x)
  unfolding count_down
  count_down-IsSound params bound x zero small e h = widen params bound x h
  count_down-IsSound params bound x (suc n) small e h =
      let is_open : x.call.is_closed ≡ false =
        h.closed ∙ open_at (unfinished x) (omega (arith, e)) in
      let left : (x.call.pending_requests + 4294967295) % 2 ^ 32
          ≡ is_awaited x.awaited + length x.sending + n =
        omega (arith, h.counted, h.bounded, small, e) in
      record {
        counted = left;
        bounded = omega (arith, h.bounded, e);
        closed = rw is_open (ap (λ k. eqb k 0) left);
        calm = rw (is_open, h.calm) refl;
        pages = h.pages;
        in_order = h.in_order;
        all_there = h.all_there;
      }

  step-IsSound :
      (params : Option String) (bound : ℕ) (x : Exchange) (move : Move)
      → bound < 4294967294
      → IsSound params bound x
      → IsSound params (suc bound) (exchange_step paginated encode peer x move)
  unfolding exchange_step
  step-IsSound params bound x answers small h = answer-IsSound params bound x x.awaited small refl h
  step-IsSound params bound x (sends i) small h =
      hand_on-IsSound params bound x i (get_elem? x.sending i) refl h
  step-IsSound params bound x counts small h =
      count_down-IsSound params bound x x.counting small refl h

  run-IsSound :
      (params : Option String) (bound : ℕ) (x : Exchange) (moves : List Move)
      → bound + length moves < 4294967294
      → IsSound params bound x
      → IsSound params (bound + length moves) (run_exchange paginated encode peer moves x)
  unfolding run_exchange
  run-IsSound params bound x [] small h = rw (add_zero bound) h
  run-IsSound params bound x (move ∷ moves) small h = rw (add_suc bound (length moves)) (
      run-IsSound params (suc bound) (exchange_step paginated encode peer x move) moves
        (omega (arith, small)) (step-IsSound params bound x move (omega (arith, small)) h))

  -- For a request that went out, in any order of the answers and of the steps of the callbacks, as
  -- long as these are fewer than the counter can count: no callback sends on the closed channel or
  -- closes it again, the channel is closed just if no answer is outstanding and each callback is
  -- through, and each page that was answered either has been handed on or waits for that, once.
  pub send_request_sync_pages :
      (s : Session) (method : String) (params : Option Encoded) (reader : Callback) (now : ℕ)
      (raw : Option String) (moves : List Move)
      → (send_request s method params (some reader) now).2 ≡ sent
      → length moves < 4294967293
      → let x =
          run_exchange paginated encode peer moves
            (start_exchange (send_request_sync s method params reader now).1 raw) in
        (x.has_panicked ≡ false)
        × (x.call.is_closed ≡ eqb (unfinished x) 0)
        × ((ms : List Message) × Pages raw ms x.awaited
            × ((f : Message → ℕ) → total f x.call.delivered + total f x.sending ≡ total f ms))
  unfolding send_request_sync start_exchange
  send_request_sync_pages s method params reader now raw moves how small = rw how (
      let x : Exchange = start_exchange (started sent params) raw in
      let h = run-IsSound raw 1 x moves (omega (arith, small)) (record {
        counted = refl;
        bounded = omega arith;
        closed = refl;
        calm = refl;
        pages = [];
        in_order = first;
        all_there = λ f. refl;
      }) in
      (h.calm, h.closed, (h.pages, h.in_order, h.all_there)))
