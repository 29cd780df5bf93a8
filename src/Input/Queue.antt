-- ===== src/Input/Queue.antt =====
-- What `Put` of shared/input.go lets into the queue.
use gate4ai.Prelude.{
  ℕ, ◌≤◌, ◌<◌, ◌≡◌, ◌⊎◌, refl, Option, none, some, List, [], ◌∷◌, ◌++◌, arith, length, All,
  length-append,
}
use gate4ai.Input.{Option, List, ℕ, Input, put, validate, Validator}
use gate4ai.Session.{Session, update_last_activity}
use gate4ai.Jsonrpc.{GoError, Message}

abbrev pub waiting : Option (List Message) → ℕ
waiting none = 0
waiting (some q) = length q

module _ {W : Type 0} where
  -- A validator accepts the message whatever the shared state is.
  abbrev pub Accepts : Message → Validator W → Type 0
  Accepts m v = (w : W) → (v m w).0 ≡ none

  validate_accepted :
      (vs : List (Validator W)) (m : Message) (w : W)
      → All (Accepts m) vs
      → (validate vs m w).0 ≡ none
  unfolding validate
  validate_accepted [] m w h = refl
  validate_accepted (v ∷ vs) m w h = ground (arith, h.0 w, validate_accepted vs m (v m w).1 h.1)

  -- A message that all validators accept is appended to a started queue that has room, the session
  -- is marked active, and nothing else of it changes.
  pub put_accepted :
      (i : Input W) (m : Message) (s : Session) (w : W) (now : ℕ) (q : List Message)
      → All (Accepts m) i.validators
      → i.input ≡ some q
      → length q < 100
      → ((put i m s w now).0.input ≡ some (q ++ m ∷ []))
        × ((put i m s w now).1 ≡ update_last_activity s now)
        × ((put i m s w now).3 ≡ none)
  unfolding put
  put_accepted i m s w now q h o room = ground (arith, validate_accepted i.validators m w h)

  -- A message that `Put` refuses leaves the queue, the validators and the handlers as they were.
  -- The error is that of a validator, or the queue is not started or full.
  pub put_refused :
      (i : Input W) (m : Message) (s : Session) (w : W) (now : ℕ) (e : GoError)
      → (put i m s w now).3 ≡ some e
      → ((put i m s w now).0 ≡ i)
        × (((validate i.validators m w).0 ≡ some e)
            ⊎ (i.input ≡ none)
            ⊎ ((q : List Message) × (i.input ≡ some q) × (100 ≤ length q)))
  unfolding put
  put_refused i m s w now e h = ground arith

  -- The queue never holds more than 100 messages.
  pub put_bounded :
      (i : Input W) (m : Message) (s : Session) (w : W) (now : ℕ)
      → waiting i.input ≤ 100
      → waiting (put i m s w now).0.input ≤ 100
  unfolding put
  put_bounded i m s w now h = grind (arith, length-append)
