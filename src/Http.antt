-- ===== src/Http.antt =====
-- The HTTP handlers of server/transport: handle-mcp2025-POST.go (Post, Reply), handle-a2a-POST.go
-- (A2aPost), and here those of the smaller files. net/http is outside: a request is given by the
-- parts that a handler reads, and what comes out of a session's channel, a timer or the client's
-- connection is a list of arrivals.
pub mod Reply
pub mod Post
pub mod A2aPost
pub mod Get2024
pub mod Routing
pub mod Examples
use gate4ai.Dict
use gate4ai.Dict.{Dict}
use gate4ai.Prelude.{
  ℕ, ◌-◌, Bool, true, false, not, Option, none, some, List, [], ◌∷◌, String, ◌==◌, starts_with,
  arith, if◌then◌else◌, is_none, ℤ, beq_ℤ,
}
use gate4ai.Input.{Input, put}
use gate4ai.Jsonrpc.{RequestId, GoError, RpcError, Message, unauthorized_code}
use gate4ai.Manager.{Manager, get_session, close_session}
use gate4ai.Session.{Session}

-- What a handler writes: a JSON-RPC error, a plain text, or a status with no body.
pub data HttpReply : Type 0 where
  rpc_reply : ℕ → RequestId → RpcError → HttpReply
  text_reply : ℕ → String → HttpReply
  status_only : ℕ → HttpReply

-- `sendJSONRPCErrorResponse`.
unfoldable pub send_error : RequestId → ℤ → String → Option String → HttpReply
send_error id code message payload =
    rpc_reply (if beq_ℤ code unauthorized_code then 401 else 200) id
      (record { code = code; message = message; payload = payload })

-- The body of a POST: not read, no message, or its messages, where a null is a nil message.
pub data Body : Type 0 where
  unreadable : Body
  invalid : String → Body
  messages : List (Option Message) → Body

-- What a handler that waits gets: a message or a nil one, the end of the channel, of its time, or
-- of the client's connection.
pub data Arrival : Type 0 where
  message : Message → Arrival
  nil_message closed timer disconnects : Arrival

-- `handleDELETE`, with the `Mcp-Session-Id` header.
unfoldable pub handle_delete : Manager → String → Manager × HttpReply
handle_delete m id =
    if id == ""
    then (m, text_reply 400 "Bad Request: Mcp-Session-Id header required")
    else if is_none (get_session m id)
    then (m, text_reply 404 "Not Found: Session expired or invalid")
    else (close_session m id, status_only 204)

abbrev bearer : String
bearer = "Bearer "

-- `extractAuthKey`, with the `Authorization` header and the query parameter `key`. `trim` is
-- `strings.TrimPrefix`.
unfoldable pub extract_auth_key : (String → String → String) → String → String → String
extract_auth_key trim header key = if starts_with header bearer then trim header bearer else key

module _ {W : Type 0} where
  -- The messages of a body one after another; the flag says that the handler panicked at a nil
  -- message. `handle2024POST` goes on whatever `Put` returns.
  unfoldable pub put_each_2024 :
      List (Option Message) → Input W → Session → W → ℕ → Input W × Session × W × Bool
  put_each_2024 [] i s w now = (i, s, w, false)
  put_each_2024 (none ∷ more) i s w now = (i, s, w, true)
  put_each_2024 (some m ∷ more) i s w now =
      let r : Input W × Session × W × Option GoError =
        put i (record m { session = some s.id }) s w now in
      put_each_2024 more r.0 r.1 r.2 now

  put_body : Body → Input W → Session → W → ℕ → Input W × Session × W × Bool
  unfolding put_each_2024
  put_body (messages ms) i s w now = put_each_2024 ms i s w now
  put_body _ i s w now = (i, s, w, false)

  -- `handle2024POST` with the session it found, where it found one; every body is accepted. There
  -- is no reply where it panics.
  unfoldable pub handle_2024_post :
      Option Session → Body → Input W → W → ℕ → Input W × Option Session × W × Option HttpReply
  unfolding put_body
  handle_2024_post none body i w now = (i, none, w, some (text_reply 404 "Session not found"))
  handle_2024_post (some s) body i w now =
      let r : Input W × Session × W × Bool = put_body body i s w now in
      (r.0, some r.1, r.2, if r.3 then none else some (status_only 202))
