-- ===== src/Jsonrpc.antt =====
-- The JSON-RPC layer: request identifiers (shared/mcp/2024/schema/requests.go), errors and their
-- codes (shared/jsonrpc.go, shared/a2a/2025-draft/schema), messages (shared/message.go).
-- Raw JSON is kept as its text. A value that Go hands to `json.Marshal` is an `Encoded`: the text
-- that the marshaller returns, or its error.
pub mod Laws
pub mod Examples
use gate4ai.Prelude.{
  ℕ, Bool, true, false, Option, none, some, List, [], ◌∷◌, String, ◌<>◌, map, ℤ, negsuc, show_ℕ,
  show_ℤ, quote,
}

-- What `RequestID.Value` holds. `other` is any other JSON value, by its compact text.
pub data IdValue : Type 0 where
  null : IdValue
  number : ℕ → IdValue
  text : String → IdValue
  other : String → IdValue

-- A `*RequestID`; `none` is the nil pointer.
abbrev pub RequestId : Type 0
RequestId = Option IdValue

unfoldable pub request_id_from_uint64 : ℕ → IdValue
request_id_from_uint64 value = number value

unfoldable pub id_string : RequestId → String
id_string none = "nil"
id_string (some null) = "nil"
id_string (some (number n)) = show_ℕ n
id_string (some (text s)) = quote s
id_string (some (other s)) = s

unfoldable pub is_empty : RequestId → Bool
is_empty none = true
is_empty (some null) = true
is_empty (some _) = false

-- Codes of shared/jsonrpc.go.
abbrev pub parse_error_code : ℤ
parse_error_code = negsuc 32699

abbrev pub invalid_request_code : ℤ
invalid_request_code = negsuc 32599

abbrev pub method_not_found_code : ℤ
method_not_found_code = negsuc 32600

abbrev pub invalid_params_code : ℤ
invalid_params_code = negsuc 32601

abbrev pub internal_code : ℤ
internal_code = negsuc 32602

abbrev pub server_error_code : ℤ
server_error_code = negsuc 31999

abbrev pub unauthorized_code : ℤ
unauthorized_code = negsuc 32000

-- `JSONRPCError`; the optional data is kept as its JSON text.
pub record RpcError : Type 0 where
  pub code : ℤ
  pub message : String
  pub payload : Option String

-- A Go `error` that is not nil: a text error, context.Canceled, the `*JSONRPCError` of package
-- shared, or the type of the same shape that the A2A schema declares.
pub data GoError : Type 0 where
  plain : String → GoError
  canceled : GoError
  rpc : RpcError → GoError
  a2a : RpcError → GoError

-- err.Error()
unfoldable pub error_text : GoError → String
error_text (plain s) = s
error_text canceled = "context canceled"
error_text (rpc e) = show_ℤ e.code <> ": " <> e.message
error_text (a2a e) = "JSON-RPC Error " <> show_ℤ e.code <> ": " <> e.message

-- `NewJSONRPCError` at an error that is not nil.
unfoldable pub new_jsonrpc_error : GoError → RpcError
unfolding error_text
new_jsonrpc_error err = record { code = internal_code; message = error_text err; payload = none }

-- The result of `json.Marshal`: a text, or the text of its error.
pub data Encoded : Type 0 where
  encoded : String → Encoded
  unencodable : String → Encoded

-- The result that a handler returns: nil, or a value. The flag says whether its type is
-- `schema.InitializeResult`, which `SendResponse` tests.
pub data Answer : Type 0 where
  nil : Answer
  value : Bool → Encoded → Answer

-- `session` is the identifier of the session that the message belongs to.
pub record Message : Type 0 where
  pub id : RequestId
  pub method : Option String
  pub params : Option String
  pub result : Option String
  pub error : Option RpcError
  pub processed : Bool
  pub session : Option String

-- The three shapes that `Message.MarshalJSON` writes.
pub data Wire : Type 0 where
  error_response : RequestId → RpcError → Wire
  response : RequestId → String → Wire
  call : RequestId → Option String → Option String → Wire

marshal_result : Message → Option String → Wire
marshal_result m (some r) = response m.id r
marshal_result m none = call m.id m.method m.params

marshal_error : Message → Option RpcError → Wire
marshal_error m (some e) = error_response m.id e
marshal_error m none = marshal_result m m.result

unfoldable pub marshal_message : Message → Wire
unfolding marshal_error marshal_result
marshal_message m = marshal_error m m.error

-- `ParseMessages`. The two attempts of `json.Unmarshal` are arguments: the body read as an array,
-- whose null elements are nil messages, and read as one message.
set_session : Option String → Option Message → Option Message
set_session s none = none
set_session s (some m) = some (record m { session = s })

unfoldable pub parse_messages :
    Option String → Option (List (Option Message)) → Option Message → Option (List (Option Message))
unfolding set_session
parse_messages s (some batch) single = some (map (set_session s) batch)
parse_messages s none (some m) = some (some (record m { session = s }) ∷ [])
parse_messages s none none = none
