-- ===== src/Handshake.antt =====
-- The MCP handshake of server/mcp/capability/base.go: `initialize` with its choice of a protocol
-- version, `notifications/initialized` and the pings. What the client tells of itself is the state
-- that the handlers share; the decoding of the parameters and the JSON of the result, in which the
-- negotiated version is the only part that depends on the request, are arguments.
pub mod Negotiation
pub mod Connection
pub mod Answered
pub mod Examples
use gate4ai.Dict.{Dict}
use gate4ai.Prelude.{
  ◌-◌, ◌/◌, ◌<◌, ◌⊎◌, inl, inr, Bool, true, false, ◌||◌, Option, none, some, List, [], ◌∷◌, String,
  ◌<>◌, ◌==◌, arith, if◌then◌else◌, ℤ,
}
use gate4ai.Input.{Input, Handler, Reaction, returns, new_input, add_capability}
use gate4ai.Jsonrpc.{
  GoError, rpc, Encoded, encoded, nil, value, new_jsonrpc_error, invalid_params_code,
  invalid_request_code,
}
use gate4ai.Session.{
  Session, connecting, connected, is_connected, set_status, set_negotiated_version,
}

abbrev pub latest_supported_version : String
latest_supported_version = "2025-03-26"

abbrev pub supported_versions : List String
supported_versions = latest_supported_version ∷ "2024-11-05" ∷ []

listed : List String → String → Bool
listed [] v = false
listed (x ∷ xs) v = x == v || listed xs v

-- `_, supported := supportedVersions[v]`
unfoldable pub is_supported : String → Bool
unfolding listed
is_supported v = listed supported_versions v

unfoldable pub negotiate : String → String
unfolding is_supported
negotiate requested =
    if requested == ""
    then latest_supported_version
    else if is_supported requested
    then requested
    else latest_supported_version

pub record InitializeParams : Type 0 where
  pub protocol_version : String
  pub client_info : String
  pub capabilities : String

-- The fields that `SetClientInfo` sets. The capabilities are behind a pointer.
pub record Client : Type 0 where
  pub info : String
  pub capabilities : Option String

-- `NewJSONRPCError(&JSONRPCError{...})` as an error.
unfoldable pub rewrapped : ℤ → String → GoError
unfolding new_jsonrpc_error
rewrapped code message =
    rpc (new_jsonrpc_error (rpc (record { code = code; message = message; payload = none })))

-- `unmarshal` reads the parameters: what they say, or the text of the error. `answer` is the JSON
-- of the `InitializeResult` with a protocol version.
module _ (unmarshal : String → InitializeParams ⊎ String) (answer : String → Encoded) where
  initialize_with : InitializeParams ⊎ String → Session → Client → Session × Client × Reaction
  unfolding rewrapped negotiate
  initialize_with (inr e) s c =
      (s, c, returns nil (some (rewrapped invalid_params_code ("Invalid parameters: " <> e))))
  initialize_with (inl p) s c =
      let version : String = negotiate p.protocol_version in
      (
        set_status (set_negotiated_version s version) connecting,
        record { info = p.client_info; capabilities = some p.capabilities },
        returns (value true (answer version)) none,
      )

  initialize_params : Option String → Session → Client → Session × Client × Reaction
  unfolding initialize_with rewrapped
  initialize_params none s c =
      (s, c, returns nil (some (rewrapped invalid_params_code "Missing params")))
  initialize_params (some raw) s c = initialize_with (unmarshal raw) s c

  unfoldable pub handle_initialize : Handler Client
  unfolding initialize_params
  handle_initialize m s c = initialize_params m.params s c

-- A session that is not connecting becomes connected all the same, if a version was negotiated.
unfoldable pub handle_notification_initialized : Handler Client
unfolding rewrapped
handle_notification_initialized m s c =
    if is_connected s.status
    then (s, c, returns nil none)
    else if s.negotiated_version == ""
    then (
      s,
      c,
      returns nil (
          some (
            rewrapped invalid_request_code
              "Protocol error: received initialized notification before successful initialize")),
    )
    else (set_status s connected, c, returns nil none)

unfoldable pub handle_notification_ping : Handler Client
handle_notification_ping m s c = (s, c, returns nil none)

unfoldable pub handle_ping : Handler Client
handle_ping m s c = (s, c, returns (value false (encoded "{}")) none)

-- `NewBase`, and an input processor that has this capability alone.
module _ (unmarshal : String → InitializeParams ⊎ String) (answer : String → Encoded) where
  unfoldable pub base_handlers : Dict (Handler Client)
  base_handlers =
      ("ping", handle_ping)
      ∷ ("initialize", handle_initialize unmarshal answer)
      ∷ ("notifications/ping", handle_notification_ping)
      ∷ ("notifications/initialized", handle_notification_initialized)
      ∷ []

  unfoldable pub base_input : Input Client
  base_input = add_capability new_input base_handlers
