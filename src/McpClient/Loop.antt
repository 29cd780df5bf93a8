-- ===== src/McpClient/Loop.antt =====
-- The loop of a client session and its end: `processLoop` and `Close` of
-- gateway/clients/mcpClient/session.go. `resolve` reads the URL of an endpoint and resolves it
-- against the URL of the backend; `parse` is `ParseMessages`.
pub mod Sound
use gate4ai.Jsonrpc.{plain, Message}
use gate4ai.Session.{new, set_status, close}
use gate4ai.McpClient.{
  ClientSession, on_base, write_initialization_error_and_close, end_loop, and_then,
}
use gate4ai.Prelude.{
  ◌<◌, ◌⊎◌, inl, inr, false, not, Option, none, some, List, String, ◌<>◌, ◌==◌, arith,
  if◌then◌else◌,
}

-- What the `select` takes: a message or the end of the output, an SSE event by its name and data,
-- the end of the events, or the end of the session or of its context.
pub data LoopEvent : Type 0 where
  outgoing : Option Message → LoopEvent
  sse : String → String → LoopEvent
  nil_event output_closed sse_closed close_signal cancelled : LoopEvent

-- What the loop does besides: it posts a message, starts `sendInitialize`, puts messages into the
-- input, goes on, or has ended.
pub data LoopEffect : Type 0 where
  posts : Message → LoopEffect
  initializes : LoopEffect
  puts : List Message → LoopEffect
  goes_on ends : LoopEffect

ended : Option ClientSession → Option (ClientSession × LoopEffect)
ended s = and_then s (λ t. some (end_loop t, ends))

module _ (resolve : String → String ⊎ String) (parse : String → Option (List Message)) where
  resolved : ClientSession → String ⊎ String → Option (ClientSession × LoopEffect)
  unfolding ended write_initialization_error_and_close end_loop
  resolved s (inl url) = some (record s { post_endpoint = url }, initializes)
  resolved s (inr e) =
      ended (write_initialization_error_and_close (some (plain ("invalid endpoint URL: " <> e))) s)

  on_endpoint : ClientSession → String → Option (ClientSession × LoopEffect)
  unfolding resolved
  on_endpoint s text =
      if not (s.post_endpoint == "")
      then some (s, goes_on)
      else if text == ""
      then ended (write_initialization_error_and_close (some (plain "empty endpoint data")) s)
      else resolved s (resolve text)

  parsed : ClientSession → Option (List Message) → Option (ClientSession × LoopEffect)
  parsed s none = some (s, goes_on)
  parsed s (some ms) = some (s, puts ms)

  on_message : ClientSession → String → Option (ClientSession × LoopEffect)
  unfolding parsed
  on_message s text = if text == "" then some (s, goes_on) else parsed s (parse text)

  unfoldable pub loop_step : ClientSession → LoopEvent → Option (ClientSession × LoopEffect)
  unfolding on_endpoint on_message
  loop_step s (outgoing (some m)) = some (s, posts m)
  loop_step s (outgoing none) = some (s, goes_on)
  loop_step s (sse name text) =
      if name == "endpoint"
      then on_endpoint s text
      else if name == "message"
      then on_message s text
      else some (s, goes_on)
  loop_step s nil_event = some (s, goes_on)
  loop_step s output_closed = ended (some s)
  loop_step s sse_closed = ended (some s)
  loop_step s close_signal = ended (some s)
  loop_step s cancelled = ended (some s)

unfoldable pub close_session : ClientSession → ClientSession
unfolding close
close_session s =
    if s.close_ch
    then on_base (λ b. close (set_status b new)) (record s { close_ch = false })
    else s
