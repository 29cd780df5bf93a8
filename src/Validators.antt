-- ===== src/Validators.antt =====
-- The validators of server/mcp/validators: the size of a message, its method, and the rate of a
-- session's messages. The limiter of golang.org/x/time/rate is a parameter. `W` is the state that
-- the validators of an input processor share.
pub mod Accepted
pub mod Burst
pub mod Rush
pub mod Examples
use gate4ai.Prelude.{
  ℕ, suc, ◌/◌, ◌<◌, Bool, false, ◌||◌, Option, none, some, List, [], ◌∷◌, String, ◌<>◌, ◌==◌, arith,
  ltb, leb, if◌then◌else◌, length, ℤ, pos, negsuc,
}
use gate4ai.Input.{Validator}
use gate4ai.Jsonrpc.{GoError, plain, Message, id_string, is_empty}

-- `byte_length` is Go's `len` of a text, its bytes in UTF-8.
abbrev pub max_id_length : ℕ
max_id_length = 256

module _ (byte_length : String → ℕ) where
  params_fit : ℕ → Option String → Option GoError
  params_fit max_size none = none
  params_fit max_size (some raw) =
      if ltb max_size (byte_length raw)
      then some (plain "message exceeds maximum allowed size")
      else none

  -- `MessageSizeValidator.Validate`, at its maximum size.
  unfoldable pub check_size : ℕ → Message → Option GoError
  unfolding params_fit
  check_size max_size m =
      if leb max_id_length (byte_length (id_string m.id))
      then some (plain "message ID string exceeds maximum allowed length (256 bytes)")
      else params_fit max_size m.params

abbrev pub valid_methods : List String
valid_methods =
    "initialize" ∷ "ping" ∷ "tools/list" ∷ "prompts/list" ∷ "resources/list"
    ∷ "resources/templates/list" ∷ "resources/read" ∷ "resources/subscribe"
    ∷ "resources/unsubscribe" ∷ "prompts/get" ∷ "tools/call" ∷ "tasks/send" ∷ "tasks/sendSubscribe"
    ∷ "tasks/get" ∷ "tasks/cancel" ∷ "logging/setLevel" ∷ "completion/complete"
    ∷ "notifications/initialized" ∷ "notifications/roots/list_changed" ∷ []

unfoldable pub listed : List String → String → Bool
listed [] method = false
listed (v ∷ vs) method = v == method || listed vs method

method_of : Option String → Bool → Option GoError
unfolding listed
method_of (some method) without_id =
    if listed valid_methods method then none else some (plain ("invalid method: " <> method))
method_of none without_id = if without_id then some (plain "method and id is empty") else none

-- `MethodValidator.Validate`.
unfoldable pub check_method : Message → Option GoError
unfolding method_of
check_method m = method_of m.method (is_empty m.id)

-- A validator ends, or panics at a limiter that is nil.
pub data Verdict : Type 0 where
  accepted : Verdict
  refused : GoError → Verdict
  nil_limiter : Verdict

-- The keys of the session's parameters that throttling reads; a value that is no int counts as
-- absent.
pub record Throttled (L : Type 0) : Type 0 where
  pub rpm : Option ℤ
  pub rps : Option ℤ
  pub limiters : Option (Option L × Option L)

positive : ℤ → Bool
positive (pos n) = ltb 0 n
positive (negsuc n) = false

pub magnitude : ℤ → ℕ
magnitude (pos n) = n
magnitude (negsuc n) = suc n

-- `rate.NewLimiter` at so many events in so many seconds, with a burst; `l.Allow()`, with the
-- limiter that it leaves.
module _ {L : Type 0} (new_limiter : ℕ → ℕ → ℕ → L) (allow : L → Bool × L) where
  pub chosen : ℤ → Option ℤ → ℤ
  unfolding positive
  chosen default none = default
  chosen default (some n) = if positive n then n else default

  pub limiter_of : ℤ → ℕ → Option L
  unfolding positive magnitude
  limiter_of n seconds =
      if positive n then some (new_limiter (magnitude n) seconds (magnitude n)) else none

  kept_or_new : ℤ → ℤ → Throttled L → Option (Option L × Option L) → Option L × Option L
  unfolding chosen limiter_of
  kept_or_new default_rps default_rpm t (some pair) = pair
  kept_or_new default_rps default_rpm t none =
      (limiter_of (chosen default_rpm t.rpm) 60, limiter_of (chosen default_rps t.rps) 1)

  -- `getLimiters`: the limiters for minutes and for seconds. The caller stores them: this is a message
  -- before which no other has loaded the parameter without storing a pair. Messages that load it at
  -- once each make a pair: Rush.
  unfoldable pub get_limiters : ℤ → ℤ → Throttled L → Option L × Option L
  unfolding kept_or_new
  get_limiters default_rps default_rpm t = kept_or_new default_rps default_rpm t t.limiters

  check_second : Option L → Option L → Throttled L → Verdict × Throttled L
  check_second per_minute none t = (nil_limiter, record t { limiters = some (per_minute, none) })
  check_second per_minute (some l) t =
      let r : Bool × L = allow l in
      (
        if r.0 then accepted else refused (plain "RPS throttling limit exceeded"),
        record t { limiters = some (per_minute, some r.1) },
      )

  check_minute : Option L × Option L → Throttled L → Verdict × Throttled L
  unfolding check_second
  check_minute (none, per_second) t = (nil_limiter, record t { limiters = some (none, per_second) })
  check_minute (some l, per_second) t =
      let r : Bool × L = allow l in
      let rest = check_second (some r.1) per_second t in
      if r.0 then rest else (
        refused (plain "RPM throttling limit exceeded"),
        record t { limiters = some (some r.1, per_second) },
      )

  -- `Throttling.Validate`.
  unfoldable pub throttle : ℤ → ℤ → Throttled L → Verdict × Throttled L
  unfolding check_minute get_limiters
  throttle default_rps default_rpm t = check_minute (get_limiters default_rps default_rpm t) t

-- A message is refused where a validator panics, too: `Put` does not go on. The panic itself is
-- caught by the HTTP server.
to_error : Verdict → Option GoError
to_error accepted = none
to_error (refused e) = some e
to_error nil_limiter = some (plain "invalid memory address or nil pointer dereference")

unfoldable pub size_validator : {W : Type 0} → (String → ℕ) → ℕ → Validator W
size_validator byte_length max_size m w = (check_size byte_length max_size m, w)

unfoldable pub method_validator : {W : Type 0} → Validator W
method_validator m w = (check_method m, w)

unfoldable pub throttling_validator :
    {L : Type 0} → (ℕ → ℕ → ℕ → L) → (L → Bool × L) → ℤ → ℤ → Validator (Throttled L)
unfolding to_error
throttling_validator new_limiter allow default_rps default_rpm m t =
    let r = throttle new_limiter allow default_rps default_rpm t in (to_error r.0, r.1)

-- `CreateDefaultValidators`.
unfoldable pub create_default_validators :
    {L : Type 0} → (String → ℕ) → (ℕ → ℕ → ℕ → L) → (L → Bool × L) → List (Validator (Throttled L))
create_default_validators byte_length new_limiter allow =
    throttling_validator new_limiter allow (pos 60) (pos 600)
    ∷ size_validator byte_length 102400
    ∷ method_validator
    ∷ []
