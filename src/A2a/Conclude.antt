-- ===== src/A2a/Conclude.antt =====
-- The end of `handleTaskSend` in server/a2a/capability.go: the final state of the task, and the
-- error for the client.
pub mod Settled
use gate4ai.Prelude.{ℕ, Bool, ◌||◌, Option, none, some, arith, if◌then◌else◌}
use gate4ai.Jsonrpc.{GoError, RpcError, canceled, a2a, new_jsonrpc_error, internal_code}
use gate4ai.A2a.{
  Task, TaskState, is_input_required, is_terminal_state, is_failed, is_canceled, rpc_error,
  create_error_status,
}

-- The local variables of the call.
pub record Progress : Type 0 where
  pub last : Task
  pub handler_error : Option GoError
  pub client_error : Option RpcError

unfoldable pub is_settled : TaskState → Bool
is_settled s = is_input_required s || is_terminal_state s

abbrev pub keep_first {ℓ} : {A : Type ℓ} → Option A → A → A
keep_first none new = new
keep_first (some old) new = old

-- The final state of the task, and the error for the client.
unfoldable pub fail_with : GoError → Progress → ℕ → Progress
fail_with (a2a e) p now = record p {
  last = record p.last { status = create_error_status (a2a e) (some e) now };
  client_error = some (keep_first p.client_error (new_jsonrpc_error (a2a e)));
}
fail_with e p now = record p {
  last = record p.last { status = create_error_status e none now };
  client_error =
      some (keep_first p.client_error (rpc_error internal_code "Internal agent error occurred"));
}

unfoldable pub set_state : TaskState → Task → ℕ → Task
set_state s t now = record t { status = record t.status { state = s; timestamp = now } }

conclude_error : GoError → Progress → ℕ → Progress
unfolding fail_with set_state
conclude_error canceled p now =
    if is_canceled p.last.status.state
    then p
    else record p { last = set_state TaskState.canceled p.last now }
conclude_error e p now =
    let failing = fail_with e p now in if is_failed p.last.status.state then p else failing

conclude_with : Option GoError → Progress → ℕ → Progress
unfolding conclude_error is_settled set_state
conclude_with none p now =
    if is_settled p.last.status.state
    then p
    else record p { last = set_state TaskState.completed p.last now }
conclude_with (some e) p now = conclude_error e p now

unfoldable pub conclude : Progress → ℕ → Progress
unfolding conclude_with
conclude p now = conclude_with p.handler_error p now
