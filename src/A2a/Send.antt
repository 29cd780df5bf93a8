-- ===== src/A2a/Send.antt =====
-- `tasks/send`: `handleTaskSend`, and `loadOrCreateTask`, of
-- server/a2a/capability.go. A call is cut in three, where other requests may come between: up to
-- the start of the agent's handler, the run of the handler, and the end. `now` is the one time of
-- a call. The call's own `cancel()` is seen by the handler only, whose run is any.
pub mod Settled
pub mod Guards
use gate4ai.Prelude.{
  ℕ, zero, suc, ◌+◌, ◌-◌, ◌<◌, ◌⊎◌, inl, inr, Bool, true, false, ◌&&◌, Option, none, some, List, [],
  ◌∷◌, ◌++◌, String, ◌<>◌, ◌==◌, arith, if◌then◌else◌, ℤ, beq_ℤ,
}
use gate4ai.Dict
use gate4ai.Dict.{Dict}
use gate4ai.Jsonrpc.{
  GoError, RpcError, plain, canceled, a2a, error_text, new_jsonrpc_error, internal_code,
  invalid_params_code, invalid_request_code,
}
use gate4ai.A2a.{
  Task, TaskState, TaskSendParams, Params, missing, malformed, params, TaskReply, task_reply,
  task_error, task_panics, YieldUpdate, is_input_required, is_terminal_state, rpc_error,
  task_not_found_code, create_error_status, trimmed,
}
use gate4ai.A2a.Handlers.{Handlers, store_cancel_func, remove_cancel_func, is_handler_running}
use gate4ai.A2a.Conclude.{Progress, is_settled, keep_first, conclude}
use gate4ai.A2a.Store.{TaskStore, Saved, saved, save_fails, Loaded, loaded, load_fails}
use gate4ai.A2a.Update.{apply_update}

unfoldable pub is_not_found : GoError → Bool
is_not_found (a2a e) = beq_ℤ e.code task_not_found_code
is_not_found _ = false

unfoldable pub new_task : String → String → Option String → ℕ → Task
new_task id session_id metadata now = record {
  id = id;
  session_id = session_id;
  status = record { state = TaskState.submitted; message = none; timestamp = now };
  artifacts = [];
  history = [];
  metadata = metadata;
}

replace_metadata : Option String → Task → Task
replace_metadata none t = t
replace_metadata (some m) t = record t { metadata = some m }

-- Restarted tasks start without artifacts, and keep their history.
unfoldable pub continue_task : Task → String → ℕ → Task
continue_task t role now =
    if is_input_required t.status.state && role == "user"
    then record t { status = record t.status { state = TaskState.submitted } }
    else if is_terminal_state t.status.state && role == "user"
    then record t {
      status = record { state = TaskState.submitted; message = none; timestamp = now };
      artifacts = [];
    }
    else t

unfoldable pub add_message : Task → TaskSendParams → Task
add_message t p =
    if p.message.role == "user" then record t { history = t.history ++ p.message ∷ [] } else t

-- A handler's run: what it yields, what it returns, and after how many updates the `select` takes
-- the returned error; `none` where it sees the channel of updates closed first.
pub record HandlerRun : Type 0 where
  pub updates : List YieldUpdate
  pub result : Option GoError
  pub taken_after : Option ℕ

one_less : Option ℕ → Option ℕ
one_less none = none
one_less (some zero) = none
one_less (some (suc n)) = some n

at_once : Option ℕ → Bool
at_once (some zero) = true
at_once _ = false

yielded : Progress → RpcError → ℕ → Progress
yielded p e now = record p {
  last = record p.last { status = create_error_status (a2a e) (some e) now };
  handler_error = some (a2a e);
  client_error = some (new_jsonrpc_error (a2a e));
}

-- The text of a state, as Go writes it.
unfoldable pub state_text : TaskState → String
state_text TaskState.submitted = "submitted"
state_text TaskState.working = "working"
state_text TaskState.input_required = "input-required"
state_text TaskState.completed = "completed"
state_text TaskState.canceled = "canceled"
state_text TaskState.failed = "failed"
state_text TaskState.unknown = "unknown"
state_text (TaskState.other s) = s

-- `errors.Is(err, context.Canceled)` sees through the wrapping.
unfoldable pub wrapped : String → GoError → GoError
wrapped s canceled = canceled
wrapped s e = plain (s <> error_text e)

failed_save : Progress → GoError → ℕ → Progress
unfolding state_text wrapped
failed_save p e now =
    let prefix = "failed to save state (" <> state_text p.last.status.state <> "): " in
    record p {
      last = record p.last {
        status = create_error_status (plain (prefix <> error_text e)) none now;
      };
      handler_error = some (wrapped prefix e);
    }

drain_error : Progress → RpcError → ℕ → Progress
drain_error p e now =
    let first = keep_first p.handler_error (a2a e) in
    record {
      last = record p.last { status = create_error_status first (some e) now };
      handler_error = some first;
      client_error = some (keep_first p.client_error (new_jsonrpc_error (a2a e)));
    }

-- The loop that drains the channel after the main one.
unfoldable pub drain : Progress → List YieldUpdate → ℕ → Progress
unfolding drain_error
drain p [] now = p
drain p (u ∷ us) now =
    let next = record p { last = apply_update p.last u now } in
    let rest = drain next us now in elim u.error [ some e ↦ drain_error next e now | none ↦ rest ]

took : Progress → Option GoError → Progress
took p result = record p { handler_error = result }

client_reply : Option RpcError → Option ℤ → Task → TaskReply
client_reply (some e) n t = task_error e
client_reply none n t = task_reply (trimmed n t)

-- How far a call came before the handler's start.
pub data Begun (S : Type 0) : Type 0 where
  refused_send : S → RpcError → Begun S
  panicked : Begun S
  begun : S → Handlers → Task → TaskSendParams → Begun S

module _ {S : Type 0} (store : TaskStore S) where
  create_task : S → Saved S → Task → (S × Task) ⊎ GoError
  create_task s (saved s') t = inl (s', t)
  create_task s (save_fails e) t =
      inr (plain ("failed to save newly created task: " <> error_text e))

  load_or_create : S → Loaded → String → String → Option String → ℕ → (S × Task) ⊎ GoError
  unfolding create_task replace_metadata
  load_or_create s (loaded t) id session_id metadata now = inl (s, replace_metadata metadata t)
  load_or_create s (load_fails e) id session_id metadata now =
      let fresh = new_task id session_id metadata now in
      if is_not_found e
      then create_task s (store.save s fresh) fresh
      else inr (plain ("internal error loading task: " <> error_text e))

  unfoldable pub load_or_create_task :
      S → String → String → Option String → ℕ → (S × Task) ⊎ GoError
  unfolding load_or_create
  load_or_create_task s id session_id metadata now =
      load_or_create s (store.load s id) id session_id metadata now

  begin_saved : S → Saved S → Handlers → Task → TaskSendParams → ℕ → Begun S
  begin_saved s (save_fails e) h t p c =
      refused_send s (rpc_error internal_code "Failed to save task state")
  begin_saved s (saved s') h t p c = begun s' (store_cancel_func h t.id c) t p

  begin_task : S → Handlers → Task → TaskSendParams → String → ℕ → ℕ → Begun S
  unfolding begin_saved
  begin_task s h t p busy c now =
      let ready = add_message (continue_task t p.message.role now) p in
      if is_handler_running h t.id
      then refused_send s (rpc_error invalid_request_code busy)
      else begin_saved s (store.save s ready) h ready p c

  begin_loaded : S → (S × Task) ⊎ GoError → Handlers → TaskSendParams → String → ℕ → ℕ → Begun S
  unfolding begin_task
  begin_loaded s (inl (s', t)) h p busy c now = begin_task s' h t p busy c now
  begin_loaded s (inr e) h p busy c now =
      refused_send s (rpc_error internal_code "Failed to initialize task")

  -- The first part of `handleTaskSend` and of `handleTaskSendSubscribe`, which answer a task that
  -- is running with the text `busy`. `c` is the new context.
  unfoldable pub begin_send :
      S → Handlers → String → Params TaskSendParams → String → ℕ → ℕ → Begun S
  unfolding begin_loaded
  begin_send s h session_id missing busy c now = panicked
  begin_send s h session_id (malformed e) busy c now =
      refused_send s (rpc_error invalid_params_code e)
  begin_send s h session_id (params p) busy c now =
      begin_loaded s (load_or_create_task s p.id session_id p.metadata now) h p busy c now

  -- What the main loop does after an update; the flag says that it goes on.
  saved_midway : S → Saved S → Progress → ℕ → S × Progress × Bool
  unfolding failed_save
  saved_midway s (saved s') p now = (s', p, false)
  saved_midway s (save_fails e) p now = (s, failed_save p e now, false)

  unfoldable pub after_update : S → Progress → Option RpcError → ℕ → S × Progress × Bool
  unfolding saved_midway yielded
  after_update s p (some e) now = (s, yielded p e now, false)
  after_update s p none now =
      if is_settled p.last.status.state
      then saved_midway s (store.save s p.last) p now
      else (s, p, true)

  -- The main loop and the draining.
  unfoldable pub run_updates :
      S → Progress → Option GoError → Option ℕ → List YieldUpdate → ℕ → S × Progress
  unfolding took at_once one_less
  run_updates s p result none [] now = (s, p)
  run_updates s p result (some n) [] now = (s, took p result)
  run_updates s p result pick (u ∷ us) now =
      let (s', p', more) =
        after_update s (record p { last = apply_update p.last u now }) u.error now in
      let rest = run_updates s' p' result (one_less pick) us now in
      if at_once pick
      then (s, drain (took p result) (u ∷ us) now)
      else if more
      then rest
      else (s', drain p' us now)

  finish_saved : S → Saved S → Progress → TaskSendParams → S × TaskReply
  unfolding client_reply
  finish_saved s (save_fails e) p q =
      (s, task_error (rpc_error internal_code "Failed to save final task state"))
  finish_saved s (saved s') p q = (s', client_reply p.client_error q.history_length p.last)

  -- The end of the call, with the deferred removal of the context.
  unfoldable pub finish_send :
      S × Progress → Handlers → TaskSendParams → ℕ → S × Handlers × TaskReply
  unfolding finish_saved
  finish_send (s, p) h q now =
      let done = conclude p now in
      let (s', reply) = finish_saved s (store.save s done.last) done q in
      (s', remove_cancel_func h p.last.id, reply)

  complete_send : Begun S → S → Handlers → HandlerRun → ℕ → S × Handlers × TaskReply
  unfolding finish_send
  complete_send (refused_send s' e) s h run now = (s', h, task_error e)
  complete_send panicked s h run now = (s, h, task_panics)
  complete_send (begun s' h' t p) s h run now =
      finish_send
        (run_updates s' (record { last = t; handler_error = none; client_error = none }) run.result
          run.taken_after run.updates now)
        h' p now

  -- `handleTaskSend`, with no other request on the way.
  unfoldable pub handle_task_send :
      S → Handlers → String → Params TaskSendParams → HandlerRun → ℕ → ℕ → S × Handlers × TaskReply
  unfolding complete_send
  handle_task_send s h session_id q run c now =
      complete_send (begin_send s h session_id q "Task is already processing" c now) s h run now
