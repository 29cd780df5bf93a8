-- ===== src/Jsonrpc/Laws.antt =====
-- Facts about identifiers, errors and the wire format of shared/jsonrpc.go and shared/message.go.
use mathlib.Core.Path.{subst}
use gate4ai.Prelude.{◌≡◌, refl, Option, none, some, List, [], ◌∷◌, String, map, All}
use gate4ai.Jsonrpc.{
  RpcError, GoError, Message, Wire, error_response, response, call, internal_code,
  new_jsonrpc_error, marshal_message, marshal_error, marshal_result, parse_messages, set_session,
}

-- Wrapping an error for the client replaces its code by that of an internal error.
pub code-new_jsonrpc_error : (e : GoError) → (new_jsonrpc_error e).code ≡ internal_code
unfolding new_jsonrpc_error
code-new_jsonrpc_error e = refl

-- Every message that is there belongs to the session that it was read for.
abbrev pub BelongsTo : Option String → Option Message → Type 0
BelongsTo s none = Unit {0}
BelongsTo s (some m) = m.session ≡ s

set_session-BelongsTo :
    (s : Option String) (ms : List (Option Message)) → All (BelongsTo s) (map (set_session s) ms)
unfolding set_session
set_session-BelongsTo s [] = tt
set_session-BelongsTo s (none ∷ ms) = (tt, set_session-BelongsTo s ms)
set_session-BelongsTo s (some m ∷ ms) = (refl, set_session-BelongsTo s ms)

-- The messages of a body, read as a batch or as one message, belong to the session that the body was
-- read for; an element of the batch may be nil.
pub parse_messages-BelongsTo :
    (s : Option String) (batch : Option (List (Option Message))) (single : Option Message)
    (ms : List (Option Message))
    → parse_messages s batch single ≡ some ms
    → All (BelongsTo s) ms
unfolding parse_messages
parse_messages-BelongsTo s (some b) single ms h =
    let e : map (set_session s) b ≡ ms = cc in
    subst (All (BelongsTo s)) e (set_session-BelongsTo s b)
parse_messages-BelongsTo s none (some m) ms h =
    let e : some (record m { session = s }) ∷ [] ≡ ms = cc in subst (All (BelongsTo s)) e (refl, tt)
parse_messages-BelongsTo s none none ms h = absurd (cc)

-- A message goes out in one shape: an error wins over a result, a result over a call.
abbrev pub IsWireOf : Message → Wire → Type 0
IsWireOf m (error_response i e) = (m.error ≡ some e) × (i ≡ m.id)
IsWireOf m (response i r) = (m.error ≡ none) × (m.result ≡ some r) × (i ≡ m.id)
IsWireOf m (call i method params) =
    (m.error ≡ none) × (m.result ≡ none) × (i ≡ m.id) × (method ≡ m.method) × (params ≡ m.params)

marshal_result-IsWireOf :
    (m : Message) (r : Option String)
    → m.error ≡ none
    → m.result ≡ r
    → IsWireOf m (marshal_result m r)
unfolding marshal_result
marshal_result-IsWireOf m none e h = (e, h, refl, refl, refl)
marshal_result-IsWireOf m (some r) e h = (e, h, refl)

marshal_error-IsWireOf :
    (m : Message) (e : Option RpcError) → m.error ≡ e → IsWireOf m (marshal_error m e)
unfolding marshal_error
marshal_error-IsWireOf m none h = marshal_result-IsWireOf m m.result h refl
marshal_error-IsWireOf m (some e) h = (h, refl)

-- A message is written in one shape: with an error as an error response, else with a result as a
-- response, else as a call; the identifier is the message's.
pub marshal_message-IsWireOf : (m : Message) → IsWireOf m (marshal_message m)
unfolding marshal_message
marshal_message-IsWireOf m = marshal_error-IsWireOf m m.error refl
