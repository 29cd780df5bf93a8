-- ===== src/A2a/Requests.antt =====
-- `tasks/get`, `tasks/cancel`, `tasks/resubscribe` and the push notifications of
-- server/a2a/capability.go.
pub mod Cancel
use gate4ai.Prelude.{ℕ, ◌/◌, not, ◌||◌, none, some, [], ◌∷◌, String, arith, if◌then◌else◌, set}
use gate4ai.Jsonrpc.{
  GoError, RpcError, plain, a2a, new_jsonrpc_error, internal_code, invalid_params_code,
}
use gate4ai.A2a.{
  Task, TaskState, TaskQueryParams, Params, missing, malformed, params, TaskReply, task_reply,
  task_error, task_panics, text_part, is_terminal_state, rpc_error, not_cancelable_error,
  unsupported_operation_error, create_error_status, trimmed,
}
use gate4ai.A2a.Store.{TaskStore, Saved, saved, save_fails, Loaded, loaded, load_fails}
use gate4ai.A2a.Handlers.{Handlers, cancel_handler, is_handler_running}

-- The error of a load: one of the A2A schema is passed on by `NewJSONRPCError`.
unfoldable pub load_error : GoError → RpcError
load_error (a2a e) = new_jsonrpc_error (a2a e)
load_error e = rpc_error internal_code "Failed to load task state"

get_loaded : Loaded → TaskQueryParams → TaskReply
unfolding load_error
get_loaded (load_fails e) p = task_error (load_error e)
get_loaded (loaded t) p = task_reply (trimmed p.history_length t)

abbrev pub cancel_text : String
cancel_text = "Task canceled by client request."

unfoldable pub canceled_task : Task → ℕ → Task
canceled_task t now = record t {
  status = record {
    state = TaskState.canceled;
    message = some (record { role = "agent"; parts = text_part cancel_text ∷ []; metadata = none });
    timestamp = now;
  };
}

abbrev pub without_lists : Task → Task
without_lists t = record t { artifacts = []; history = [] }

inconsistent : GoError
inconsistent = plain "inconsistent state: task not terminal but handler not running"

unfoldable pub handle_push_notification_set : TaskReply
handle_push_notification_set =
    task_error (new_jsonrpc_error (a2a (unsupported_operation_error "tasks/pushNotification/set")))

unfoldable pub handle_push_notification_get : TaskReply
handle_push_notification_get =
    task_error (new_jsonrpc_error (a2a (unsupported_operation_error "tasks/pushNotification/get")))

module _ {S : Type 0} (store : TaskStore S) where
  unfoldable pub handle_task_get : S → Params TaskQueryParams → TaskReply
  unfolding get_loaded
  handle_task_get s missing = task_panics
  handle_task_get s (malformed e) = task_error (rpc_error invalid_params_code e)
  handle_task_get s (params p) = get_loaded (store.load s p.id) p

  cancel_saved : S → Saved S → Handlers → Task → S × Handlers × TaskReply
  cancel_saved s (save_fails e) h t =
      (s, h, task_error (rpc_error internal_code "Failed to save canceled task state"))
  cancel_saved s (saved s') h t = (s', h, task_reply (without_lists t))

  cancel_loaded : S → Loaded → Handlers → String → ℕ → S × Handlers × TaskReply
  unfolding load_error cancel_saved
  cancel_loaded s (load_fails e) h id now = (s, h, task_error (load_error e))
  cancel_loaded s (loaded t) h id now =
      if is_terminal_state t.status.state
      then (s, h, task_error (new_jsonrpc_error (a2a (not_cancelable_error id))))
      else cancel_saved s (store.save s (canceled_task t now)) (cancel_handler h id).0
          (canceled_task t now)

  -- `handleTaskCancel`. The parameters hold the identifier of the task.
  unfoldable pub handle_task_cancel : S → Handlers → Params String → ℕ → S × Handlers × TaskReply
  unfolding cancel_loaded
  handle_task_cancel s h missing now = (s, h, task_panics)
  handle_task_cancel s h (malformed e) now = (s, h, task_error (rpc_error invalid_params_code e))
  handle_task_cancel s h (params id) now = cancel_loaded s (store.load s id) h id now

  or_same : S → Saved S → S
  or_same s (saved s') = s'
  or_same s (save_fails e) = s

  resubscribe_loaded : S → Loaded → Handlers → TaskQueryParams → ℕ → S × TaskReply
  unfolding load_error or_same inconsistent
  resubscribe_loaded s (load_fails e) h p now = (s, task_error (load_error e))
  resubscribe_loaded s (loaded t) h p now =
      if is_terminal_state t.status.state || is_handler_running h t.id
      then (s, task_reply (record (trimmed p.history_length t) { artifacts = [] }))
      else (
        or_same s (store.save s (record t { status = create_error_status inconsistent none now })),
        task_error (rpc_error internal_code "Task in inconsistent state, cannot resubscribe"),
      )

  unfoldable pub handle_task_resubscribe : S → Handlers → Params TaskQueryParams → ℕ → S × TaskReply
  unfolding resubscribe_loaded
  handle_task_resubscribe s h missing now = (s, task_panics)
  handle_task_resubscribe s h (malformed e) now = (s, task_error (rpc_error invalid_params_code e))
  handle_task_resubscribe s h (params p) now = resubscribe_loaded s (store.load s p.id) h p now
