-- ===== src/McpClient/Calls.antt =====
-- Single requests of a client session: `CallTool`, `GetPrompt` and `ReadResource` in
-- gateway/clients/mcpClient (tools.go, prompts.go, resources.go). The callback gives what the
-- caller's channel then holds, and closes it. `decode` reads a result, or gives the text of its
-- error. A nil message, which the request manager does not pass, is left out.
use gate4ai.Jsonrpc.{RpcError, error_text, rpc, Message}
use gate4ai.Prelude.{◌⊎◌, inl, inr, Bool, Option, none, some, String, ◌<>◌, ◌==◌, if◌then◌else◌}

-- A result, an error, or both, as for a tool that failed.
pub record CallEnd : Type 0 where
  pub result : Option String
  pub error : Option String

abbrev pub call_error : String → CallEnd
call_error e = record { result = none; error = some e }

abbrev pub call_result : String → CallEnd
call_result json = record { result = some json; error = none }

-- The error of an empty name or URI, for which nothing is sent.
unfoldable pub guard_name : String → String → Option CallEnd
guard_name what name = if name == "" then some (call_error (what <> " cannot be empty")) else none

-- A decoded result, and whether its `IsError` is set.
pub record CallResult : Type 0 where
  pub json : String
  pub is_error : Bool

module _ (decode : String → CallResult ⊎ String) (what : String) where
  of_decoded : (CallResult → CallEnd) → CallResult ⊎ String → CallEnd
  of_decoded finish (inl r) = finish r
  of_decoded finish (inr e) = call_error ("failed to parse backend response: " <> e)

  of_response : (CallResult → CallEnd) → Option RpcError → Option String → CallEnd
  unfolding of_decoded
  of_response finish (some e) result = call_error ("backend error: " <> error_text (rpc e))
  of_response finish none none = call_error ("protocol error: " <> what <> " result is nil")
  of_response finish none (some raw) = of_decoded finish (decode raw)

  -- The callbacks of `GetPrompt` and `ReadResource`.
  unfoldable pub read_callback : Message → CallEnd
  unfolding of_response
  read_callback m = of_response (λ r. call_result r.json) m.error m.result

  tool_end : String → CallResult → CallEnd
  tool_end name r =
      if r.is_error
      then record {
        result = some r.json;
        error = some ("tool '" <> name <> "' execution failed on backend");
      }
      else call_result r.json

  -- The callback of `CallTool`.
  unfoldable pub call_tool_callback : String → Message → CallEnd
  unfolding of_response tool_end
  call_tool_callback name m = of_response (tool_end name) m.error m.result
