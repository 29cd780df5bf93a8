-- ===== src/A2a/Examples.antt =====
-- A concrete task and store, and requests about it.
use gate4ai.Prelude.{◌≡◌, refl, Bool, false, Option, none, some, [], ◌∷◌, String, ℤ, pos}
use gate4ai.Dict
use gate4ai.Jsonrpc.{encoded, plain, a2a, new_jsonrpc_error}
use gate4ai.Session.{set_status, connected, Session, new_session}
use gate4ai.A2a.{
  arith, Task, TaskState, TaskStatus, Artifact, ChatMessage, text_part, TaskSendParams,
  TaskQueryParams, params, YieldUpdate, task_reply, task_error, not_cancelable_error, trimmed,
}
use gate4ai.A2a.Store.{InMemoryTaskStore, in_memory, in_memory-IsLawful, load_memory, save_memory}
use gate4ai.A2a.Handlers.{is_handler_running, Handlers, no_handlers, store_cancel_func}
use gate4ai.A2a.Send.{
  HandlerRun, begin_send, handle_task_send, continue_task, add_message, load_or_create_task,
}
use gate4ai.A2a.Send.Settled.{Settles, handle_task_send-Settles}
use gate4ai.A2a.Send.Guards.{IsStarted, begin_send-IsStarted}
use gate4ai.A2a.Requests.{handle_task_get, handle_task_cancel, canceled_task}
use gate4ai.A2a.Requests.Cancel.{handle_task_cancel_cancels}
use gate4ai.A2a.Stream.{
  yielding, yields, reads, read_update, Stream, EventJson, start_stream, Step, Steps, here,
  followed_by, handler_returns, waiting,
}
use gate4ai.Session.Send.{send_a2a_stream_event}
use gate4ai.A2a.Stream.Deadlock.{stream_deadlock}

abbrev hello : ChatMessage
hello = record { role = "user"; parts = text_part "hello" ∷ []; metadata = none }

abbrev send_params : TaskSendParams
send_params = record { id = "t1"; message = hello; history_length = some (pos 1); metadata = none }

abbrev query : TaskQueryParams
query = record { id = "t1"; history_length = some (pos 1) }

abbrev status_of : TaskState → TaskStatus
status_of s = record { state = s; message = none; timestamp = 3 }

abbrev task_in : TaskState → Task
task_in s = record {
  id = "t1";
  session_id = "s1";
  status = status_of s;
  artifacts = [];
  history = hello ∷ [];
  metadata = none;
}

abbrev working : YieldUpdate
working = record { status = some (status_of TaskState.working); artifact = none; error = none }

abbrev failing_run : HandlerRun
failing_run = record {
  updates = working ∷ [];
  result = some (plain "disk full");
  taken_after = none;
}

abbrev store_with : TaskState → InMemoryTaskStore
store_with s = ("t1", task_in s) ∷ []

abbrev busy_handlers : Handlers
busy_handlers = record { running = ("t1", 7) ∷ []; cancelled = [] }

abbrev chunk : ℤ → String → Option Bool → Artifact
chunk i s append = record {
  name = none;
  description = none;
  parts = text_part s ∷ [];
  index = i;
  append = append;
  last_chunk = none;
  metadata = none;
}

abbrev restarted : Task
restarted = add_message (continue_task (task_in TaskState.completed) "user" 9) send_params

handle_task_send-Settles_example :
    Settles in_memory
      (handle_task_send in_memory
        (store_with TaskState.completed)
        no_handlers
        "s2"
        (params send_params)
        failing_run
        1
        9)
      restarted.id
unfolding begin_send load_or_create_task load_memory save_memory add_message continue_task
    store_cancel_func Dict.get Dict.put
handle_task_send-Settles_example =
    handle_task_send-Settles in_memory in_memory-IsLawful (store_with TaskState.completed)
      (Dict.put (store_with TaskState.completed) "t1" restarted) no_handlers
      (store_cancel_func no_handlers "t1" 1) "s2" (params send_params) send_params failing_run 1 9
      restarted refl

begin_send-IsStarted_example : IsStarted in_memory no_handlers 1 (
    begin_send in_memory
      (store_with TaskState.completed)
      no_handlers
      "s2"
      (params send_params)
      "busy"
      1
      9)
begin_send-IsStarted_example =
    begin_send-IsStarted in_memory in_memory-IsLawful (store_with TaskState.completed) no_handlers
      "s2" (params send_params) "busy" 1 9

handle_task_cancel_cancels_example :
    let (after, h', reply) =
      handle_task_cancel in_memory (store_with TaskState.working) busy_handlers (params "t1") 9 in
    (handle_task_get in_memory after (params query)
      ≡ task_reply (trimmed (some (pos 1)) (canceled_task (task_in TaskState.working) 9)))
    × (is_handler_running h' "t1" ≡ false)
    × (h'.cancelled ≡ 7 ∷ [])
    × (handle_task_cancel in_memory after h' (params "t1") 11
        ≡ (after, h', task_error (new_jsonrpc_error (a2a (not_cancelable_error "t1")))))
unfolding load_memory save_memory Dict.get canceled_task
handle_task_cancel_cancels_example =
    handle_task_cancel_cancels in_memory in_memory-IsLawful (store_with TaskState.working)
      (Dict.put (store_with TaskState.working) "t1" (canceled_task (task_in TaskState.working) 9))
      busy_handlers query (task_in TaskState.working) 9 11 7 refl refl refl refl refl

abbrev json : EventJson
json = record {
  status_json = λ id s final. encoded "status";
  artifact_json = λ id a. encoded "artifact";
}

abbrev session : Session
session = set_status (new_session "r" "s1" 3) connected

abbrev start_state : Stream InMemoryTaskStore
start_state =
    start_stream (store_with TaskState.submitted) busy_handlers session
      (task_in TaskState.submitted) (working ∷ []) none

abbrev yielded_state : Stream InMemoryTaskStore
yielded_state = record start_state { agent = yielding [] none; channel = working ∷ [] }

abbrev read_state : Stream InMemoryTaskStore
read_state = read_update in_memory json 9 (record yielded_state { channel = [] }) working

abbrev returned : Stream InMemoryTaskStore
returned = record read_state { agent = waiting none }

returned-Steps : Steps in_memory json 9 start_state returned
unfolding start_stream read_update send_a2a_stream_event save_memory new_session
returned-Steps =
    followed_by
      (followed_by (followed_by here (yields refl (omega arith)))
        (reads {u = working} {us = []} refl refl))
      (handler_returns refl)

stream_deadlock_example :
    ((y : Stream InMemoryTaskStore) → ¬ Step in_memory json 9 returned y)
    × (returned.handlers ≡ busy_handlers)
    × (returned.task ≡ task_in TaskState.submitted)
unfolding start_stream read_update send_a2a_stream_event save_memory new_session
stream_deadlock_example =
    stream_deadlock in_memory json 9 (store_with TaskState.submitted) busy_handlers session
      (task_in TaskState.submitted) (working ∷ []) none none returned returned-Steps refl refl refl
