-- ===== src/Requests.antt =====
-- The requests that wait for a response: `RequestManager` of shared/requestManager.go. A callback
-- is known by a number; what calling it does is an argument of `Session.process_response`.
use gate4ai.Dict
use gate4ai.Dict.{Dict}
use gate4ai.Jsonrpc.{RequestId, id_string}
use gate4ai.Prelude.{arith, ◌==◌, if◌then◌else◌, ◌≡◌, ℕ, Option, none, some, []}

abbrev pub Callback : Type 0
Callback = ℕ

-- `callback` is `none` for a nil function.
pub record Request : Type 0 where
  pub callback : Option Callback
  pub timestamp : ℕ

abbrev pub RequestManager : Type 0
RequestManager = Dict Request

abbrev pub new_request_manager : RequestManager
new_request_manager = []

unfoldable pub register_request : RequestManager → RequestId → Option Callback → ℕ → RequestManager
register_request rm id callback now =
    Dict.put rm (id_string id) (record { callback = callback; timestamp = now })

-- The callback of `request, exists := rm.requests[id]`, where there is one that is not nil.
callback_of : Option Request → Option Callback
callback_of none = none
callback_of (some r) = r.callback

unfoldable pub find_callback : RequestManager → RequestId → Option Callback
unfolding callback_of
find_callback rm id = callback_of (Dict.get rm (id_string id))

pub find_callback-register_request :
    (rm : RequestManager) (id other : RequestId) (callback : Option Callback) (now : ℕ)
    → find_callback (register_request rm id callback now) other
      ≡ (if id_string id == id_string other then callback else find_callback rm other)
unfolding find_callback register_request
find_callback-register_request rm id other callback now = ground (
  arith,
  Dict.get-put rm (id_string id) (id_string other)
      (record { callback = callback; timestamp = now }),
)

pub find_callback-remove :
    (rm : RequestManager) (id other : RequestId)
    → find_callback (Dict.remove rm (id_string id)) other
      ≡ (if id_string id == id_string other then none else find_callback rm other)
unfolding find_callback
find_callback-remove rm id other =
    ground (arith, Dict.get-remove rm (id_string id) (id_string other))
