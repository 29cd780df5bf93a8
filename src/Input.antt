-- ===== src/Input.antt =====
-- The input processor of shared/input.go: a queue of messages, validators in front of it, and the
-- handlers of the methods behind it. `W` is the state that validators and handlers share beside
-- the session of the message. The code starts a goroutine for each message; here a message is
-- processed to its end before the next one.
pub mod Queue
pub mod Dispatch
pub mod Preserved
pub mod Examples
use gate4ai.Dict
use gate4ai.Dict.{Dict}
use gate4ai.Jsonrpc.{GoError, plain, rpc, Answer, nil, Message, is_empty, method_not_found_code}
use gate4ai.Prelude.{
  ℕ, Bool, false, not, ◌&&◌, Option, none, some, List, [], ◌∷◌, ◌++◌, String, ◌<>◌, ltb,
  if◌then◌else◌, length, starts_with,
}
use gate4ai.Requests.{Callback}
use gate4ai.Session.Send.{Delivery, send_response, process_response}
use gate4ai.Session.{Session, update_last_activity}

-- How a handler ends: it returns, or it panics.
pub data Reaction : Type 0 where
  returns : Answer → Option GoError → Reaction
  panics : String → Reaction

abbrev pub Handler : Type 0 → Type 0
Handler W = Message → Session → W → Session × W × Reaction

abbrev pub Validator : Type 0 → Type 0
Validator W = Message → W → Option GoError × W

-- `input` is the channel: `none` until `Process` has made it. `not_found_handler` is `none` where
-- nothing has been stored.
pub record Input (W : Type 0) : Type 0 where
  pub input : Option (List Message)
  pub validators : List (Validator W)
  pub method_handlers : Dict (Handler W)
  pub not_found_handler : Option (Handler W)

abbrev pub input_capacity : ℕ
input_capacity = 100

or_nil_text : Option String → String
or_nil_text none = "<nil>"
or_nil_text (some s) = s

-- `NilIfNil` of shared/helpers.go.
unfoldable pub nil_if_nil : Option String → String
nil_if_nil none = "nil"
nil_if_nil (some s) = s

unfoldable pub has_prefix : Option String → String → Bool
has_prefix none prefix = false
has_prefix (some s) prefix = starts_with s prefix

unfoldable pub is_notification_method : Option String → Bool
unfolding has_prefix
is_notification_method m = has_prefix m "notifications/"

unfoldable pub is_a2a_method : Option String → Bool
unfolding has_prefix
is_a2a_method m = has_prefix m "tasks/"

busy : Session → Message → ℕ → Session
busy s m now =
    if is_empty m.id
    then s
    else (send_response s m.id nil (some (plain "message processor busy, message dropped")) now).0

-- What became of a message that the loop took.
pub data Outcome : Type 0 where
  invalid silent : Outcome
  answered : Delivery → Outcome
  resolved : Bool → Outcome

module _ {W : Type 0} where
  unfoldable pub default_not_found : Handler W
  unfolding or_nil_text
  default_not_found m s w =
      (s, w, returns nil (some (plain ("method not found: " <> or_nil_text m.method))))

  -- `NewInput`; `Process` then makes the channel.
  unfoldable pub new_input : Input W
  new_input = record {
    input = none;
    validators = [];
    method_handlers = [];
    not_found_handler = some default_not_found;
  }

  unfoldable pub start : Input W → Input W
  start i = record i { input = some [] }

  unfoldable pub add_validators : Input W → List (Validator W) → Input W
  add_validators i vs = record i { validators = i.validators ++ vs }

  unfoldable pub add_not_found_handle : Input W → Handler W → Input W
  add_not_found_handle i h = record i { not_found_handler = some h }

  store_all : Dict (Handler W) → Dict (Handler W) → Dict (Handler W)
  store_all table [] = table
  store_all table ((method, h) ∷ more) = store_all (Dict.put table method h) more

  -- `addCapability`, for the handlers that the capability lists.
  unfoldable pub add_capability : Input W → Dict (Handler W) → Input W
  unfolding store_all
  add_capability i handlers = record i { method_handlers = store_all i.method_handlers handlers }

  or_not_found : Option (Handler W) → Option (Handler W) → Option (Handler W)
  or_not_found (some h) fallback = some h
  or_not_found none fallback = fallback

  unfoldable pub get_handler : Input W → String → Option (Handler W)
  unfolding or_not_found
  get_handler i method = or_not_found (Dict.get i.method_handlers method) i.not_found_handler

  -- The validators in order, up to the first that refuses.
  unfoldable pub validate : List (Validator W) → Message → W → Option GoError × W
  validate [] m w = (none, w)
  validate (v ∷ vs) m w =
      let (refused, w') = v m w in
      let rest = validate vs m w' in elim refused [ some e ↦ (some e, w') | none ↦ rest ]

  unfoldable pub offer_input :
      Option (List Message)
      → Input W
      → Message
      → Session
      → W
      → ℕ
      → Input W × Session × W × Option GoError
  unfolding busy
  offer_input none i m s w now =
      (i, busy s m now, w, some (plain "input processor busy, input channel full"))
  offer_input (some q) i m s w now =
      if ltb (length q) input_capacity
      then (record i { input = some (q ++ m ∷ []) }, s, w, none)
      else (i, busy s m now, w, some (plain "input processor busy, input channel full"))

  -- `Put`. The last part of the result is the error, `none` where the message was taken.
  unfoldable pub put : Input W → Message → Session → W → ℕ → Input W × Session × W × Option GoError
  unfolding offer_input
  put i m s w now =
      let (refused, w') = validate i.validators m w in
      elim refused [
        | some e ↦ (i, s, w', some e)
        | none ↦ offer_input i.input i m (update_last_activity s now) w' now
      ]

  answer : Session → W → Message → Answer → Option GoError → ℕ → Session × W × Outcome
  answer s w m result err now =
      let (s', how) = send_response s m.id result err now in (s', w, answered how)

  -- The end of the goroutine: the response to a request, or the recovery from a panic.
  unfoldable pub finish : Message → Session × W × Reaction → ℕ → Session × W × Outcome
  unfolding answer
  finish m (s, w, returns result err) now =
      if not (is_empty m.id) && not (is_notification_method m.method)
      then answer s w m result err now
      else (s, w, silent)
  finish m (s, w, panics reason) now =
      if not (is_empty m.id)
      then answer s w m nil (some (plain ("internal server error during processing: " <> reason)))
          now
      else (s, w, silent)

  unfoldable pub handle_method :
      Option (Handler W) → String → Message → Session → W → ℕ → Session × W × Outcome
  unfolding finish answer
  handle_method (some h) method m s w now = finish m (h m s w) now
  handle_method none method m s w now =
      if is_empty m.id
      then (s, w, silent)
      else answer s w m nil
          (some (
            rpc (record {
              code = method_not_found_code;
              message = "Method not found: " <> method;
              payload = none;
            })))
          now

  resolve : W → Session × Bool → Session × W × Outcome
  resolve w (s, found) = (s, w, resolved found)

  unfoldable pub process_method :
      Option String
      → (Callback → Message → Session → Session)
      → Input W
      → Message
      → Session
      → W
      → ℕ
      → Session × W × Outcome
  unfolding handle_method resolve
  process_method (some method) run i m s w now =
      handle_method (get_handler i method) method m s w now
  process_method none run i m s w now =
      if is_empty m.id then (s, w, invalid) else resolve w (process_response run s m)

  -- The body of the loop in `Process`, for a message whose session is `s`.
  unfoldable pub process :
      (Callback → Message → Session → Session)
      → Input W
      → Message
      → Session
      → W
      → ℕ
      → Session × W × Outcome
  unfolding process_method
  process run i m s w now = process_method m.method run i m s w now

  take_input : Option (List Message) → Input W → Option (Message × Input W)
  take_input (some (m ∷ rest)) i = some (m, record i { input = some rest })
  take_input _ i = none

  -- `for msg := range i.input`: the next message, where there is one.
  unfoldable pub next : Input W → Option (Message × Input W)
  unfolding take_input
  next i = take_input i.input i
