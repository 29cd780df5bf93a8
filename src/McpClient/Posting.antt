-- ===== src/McpClient/Posting.antt =====
-- How a client session posts a message: `executeSendRequest` of
-- gateway/clients/mcpClient/request.go. `post` is the request of net/http to the endpoint with the
-- headers of the session, by its HTTP client, which may be nil.
pub mod Settled
use gate4ai.Dict.{Dict}
use gate4ai.Jsonrpc.{
  GoError, plain, Encoded, encoded, unencodable, Message, new_jsonrpc_error, is_empty,
}
use gate4ai.Requests.{Callback}
use gate4ai.Session.{Session}
use gate4ai.Session.Send.{process_response}
use gate4ai.McpClient.{ClientSession, on_base}
use gate4ai.Prelude.{
  ℕ, ◌<◌, false, not, ◌||◌, Option, none, some, String, ◌<>◌, ◌==◌, arith, ltb, leb, if◌then◌else◌,
}

-- A response with its status and the start of its body, or no response.
pub data Posted : Type 0 where
  answered : ℕ → String → Posted
  not_created failed : String → Posted

-- `shared.NilIfNil`.
method_text : Option String → String
method_text none = "nil"
method_text (some method) = method

pub error_response : Message → Session → GoError → Message
error_response m s e = record {
  id = m.id;
  method = none;
  params = none;
  result = none;
  error = some (new_jsonrpc_error e);
  processed = false;
  session = some s.id;
}

module _ (run : Callback → Message → Session → Session) (marshal : Message → Encoded)
    (post : Option (String → Dict String → String → Posted)) (show_status : ℕ → String) where
  notify_error : Message → ClientSession → String → ClientSession
  notify_error m s e =
      if is_empty m.id
      then s
      else on_base (λ b. (process_response run b (error_response m b (plain e))).0) s

  -- The text of the error of a post that failed.
  abbrev pub post_error : String → Posted → Option String
  post_error endpoint (answered status body) =
      if ltb status 200 || leb 300 status
      then some ("post to " <> endpoint <> " failed status " <> show_status status <> ": " <> body)
      else none
  post_error endpoint (not_created e) =
      some ("failed to create HTTP request to " <> endpoint <> ": " <> e)
  post_error endpoint (failed e) = some ("http request to " <> endpoint <> " failed: " <> e)

  marshalled_error :
      (String → Dict String → String → Posted) → ClientSession → Message → Encoded → Option String
  marshalled_error send s m (unencodable e) =
      some ("internal marshal error for '" <> method_text m.method <> "': " <> e)
  marshalled_error send s m (encoded json) =
      post_error s.post_endpoint (send s.post_endpoint s.headers json)

  client_error :
      Option (String → Dict String → String → Posted) → ClientSession → Message → Option String
  unfolding marshalled_error method_text
  client_error none s m = some "http client not initialized"
  client_error (some send) s m = marshalled_error send s m (marshal m)

  -- Why a message is not delivered, if it is not.
  unfoldable pub request_error : ClientSession → Message → Option String
  unfolding client_error
  request_error s m =
      if s.post_endpoint == "" then some "post endpoint not initialized" else client_error post s m

  notified : Message → ClientSession → Option String → ClientSession
  unfolding notify_error
  notified m s none = s
  notified m s (some e) = notify_error m s e

  unfoldable pub execute_send_request : ClientSession → Message → ClientSession
  unfolding notified
  execute_send_request s m = notified m s (request_error s m)
