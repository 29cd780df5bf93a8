-- ===== src/A2a/Stream.antt =====
-- `tasks/sendSubscribe` of server/a2a/capability.go: the two goroutines that it starts, as steps.
-- One runs the agent's handler, which yields into a channel of 20, and then waits for the other,
-- which reads the channel, stores the task and sends events to the client.
pub mod Deadlock
use gate4ai.Prelude.{
  ℕ, ◌+◌, ◌<◌, ◌≡◌, ◌≢◌, Bool, true, false, Option, none, some, List, [], ◌∷◌, ◌++◌, String, ◌<>◌,
  arith, if◌then◌else◌, length,
}
use gate4ai.Jsonrpc.{GoError, RpcError, Encoded, canceled, a2a, error_text, internal_code}
use gate4ai.Session.{Session}
use gate4ai.Session.Send.{
  StreamEvent, content, stream_error, Delivery, queued, send_a2a_stream_event,
}
use gate4ai.A2a.{
  Task, TaskState, TaskStatus, TaskSendParams, Artifact, TaskReply, task_reply, YieldUpdate,
  create_error_status, rpc_error, trimmed,
}
use gate4ai.A2a.Store.{TaskStore, Saved, saved, save_fails, Loaded, loaded, load_fails}
use gate4ai.A2a.Update.{apply_update}
use gate4ai.A2a.Handlers.{Handlers, cancel_handler, remove_cancel_func}
use gate4ai.A2a.Conclude.{is_settled}

-- The handler's goroutine: what the handler still yields and then returns; waiting for the reader
-- with that result; or at its end.
pub data Agent : Type 0 where
  yielding : List YieldUpdate → Option GoError → Agent
  waiting : Option GoError → Agent
  finished : Agent

-- The reader's goroutine: in its loop; out of it because the channel is closed; or stopped by an
-- error on the way.
pub data Reader : Type 0 where
  reading drained stopped : Reader

pub record Stream (S : Type 0) : Type 0 where
  pub store : S
  pub handlers : Handlers
  pub session : Session
  pub task : Task
  pub last : Task
  pub agent : Agent
  pub reader : Reader
  pub channel : List YieldUpdate
  pub closed : Bool

abbrev pub updates_capacity : ℕ
updates_capacity = 20

-- Both goroutines, just started for a task.
unfoldable pub start_stream :
    {S : Type 0} → S → Handlers → Session → Task → List YieldUpdate → Option GoError → Stream S
start_stream s h session t us result = record {
  store = s;
  handlers = h;
  session = session;
  task = t;
  last = t;
  agent = yielding us result;
  reader = reading;
  channel = [];
  closed = false;
}

-- The answer to the request itself.
unfoldable pub initial_response : Task → TaskSendParams → TaskReply
initial_response t p = task_reply (record (trimmed p.history_length t) { artifacts = [] })

abbrev pub was_sent : Delivery → Bool
was_sent queued = true
was_sent _ = false

or_saved : {S : Type 0} → S → Saved S → S
or_saved s (saved s') = s'
or_saved s (save_fails e) = s

-- `json.Marshal` of a status event and of an artifact event.
pub record EventJson : Type 0 where
  pub status_json : String → TaskStatus → Bool → Encoded
  pub artifact_json : String → Artifact → Encoded

event_of_artifact : EventJson → Task → Option Artifact → Option StreamEvent
event_of_artifact j t none = none
event_of_artifact j t (some a) = some (content (j.artifact_json t.id a))

event_of : EventJson → Task → Task → Option TaskStatus → Option Artifact → Option StreamEvent
unfolding event_of_artifact
event_of j t last (some s) a = some (content (j.status_json t.id s (is_settled last.status.state)))
event_of j t last none a = event_of_artifact j t a

module _ {S : Type 0} (store : TaskStore S) (json : EventJson) (now : ℕ) where
  sends : Stream S → StreamEvent → Stream S × Delivery
  sends x e =
      let (session, how) = send_a2a_stream_event x.session e now in
      (record x { session = session }, how)

  cancels : Stream S → Stream S
  cancels x = record x { handlers = (cancel_handler x.handlers x.task.id).0; reader = stopped }

  send_or_cancel : Stream S → Option StreamEvent → Stream S
  unfolding sends cancels
  send_or_cancel x none = x
  send_or_cancel x (some e) = let (y, how) = sends x e in if was_sent how then y else cancels y

  saved_update : Stream S → Saved S → YieldUpdate → Stream S
  unfolding sends cancels send_or_cancel event_of
  saved_update x (save_fails e) u =
      cancels
        (sends x (
          stream_error
            (a2a (rpc_error internal_code ("Internal error saving state: " <> error_text e))))).0
  saved_update x (saved s) u =
      send_or_cancel (record x { store = s }) (event_of json x.task x.last u.status u.artifact)

  read_error : Stream S → Option RpcError → YieldUpdate → Stream S
  unfolding saved_update sends cancels or_saved
  read_error x none u = saved_update x (store.save x.store x.last) u
  read_error x (some e) u =
      let y = (sends x (stream_error (a2a e))).0 in
      let failed_task = record y.last { status = create_error_status (a2a e) (some e) now } in
      cancels
        (record y { last = failed_task; store = or_saved y.store (store.save y.store failed_task) })

  -- The body of the reader's loop.
  unfoldable pub read_update : Stream S → YieldUpdate → Stream S
  unfolding read_error
  read_update x u = read_error (record x { last = apply_update x.last u now }) u.error u

  end_event : Stream S → Task → StreamEvent → TaskStatus → Stream S
  unfolding sends or_saved
  end_event x final e status =
      let y = (sends x e).0 in
      record y { store = or_saved y.store (store.save y.store (record final { status = status })) }

  loaded_or : Task → Loaded → Task
  loaded_or t (loaded t') = t'
  loaded_or t (load_fails e) = t

  end_failed : Stream S → GoError → Stream S
  unfolding end_event loaded_or
  end_failed x (a2a e) =
      end_event x (loaded_or x.task (store.load x.store x.task.id)) (stream_error (a2a e))
        (create_error_status (a2a e) (some e) now)
  end_failed x e =
      end_event x (loaded_or x.task (store.load x.store x.task.id))
        (content (json.status_json x.task.id (create_error_status e none now) true))
        (create_error_status e none now)

  end_completed : Stream S → Loaded → Stream S
  unfolding end_event
  end_completed x (load_fails e) = x
  end_completed x (loaded t) =
      let status = record t.status { state = TaskState.completed; timestamp = now } in
      let done = end_event x t (content (json.status_json x.task.id status true)) status in
      if is_settled t.status.state then x else done

  end_result : Stream S → Option GoError → Stream S
  unfolding end_failed end_completed
  end_result x none = end_completed x (store.load x.store x.task.id)
  end_result x (some canceled) = x
  end_result x (some e) = end_failed x e

  -- The handler's goroutine after its wait, with the two deferred calls.
  unfoldable pub end_handler : Stream S → Option GoError → Stream S
  unfolding end_result
  end_handler x result =
      let y = end_result x result in
      record y {
        handlers = remove_cancel_func y.handlers y.task.id;
        agent = finished;
        closed = true;
      }

  -- One step of either goroutine. The handler waits for the reader's end before the channel of
  -- updates is closed.
  pub data Step : Stream S → Stream S → Type 0 where
    yields :
        {x : Stream S} {u : YieldUpdate} {us : List YieldUpdate} {result : Option GoError}
        → x.agent ≡ yielding (u ∷ us) result
        → length x.channel < 20
        → Step x (record x { agent = yielding us result; channel = x.channel ++ u ∷ [] })
    handler_returns :
        {x : Stream S} {result : Option GoError}
        → x.agent ≡ yielding [] result
        → Step x (record x { agent = waiting result })
    reads :
        {x : Stream S} {u : YieldUpdate} {us : List YieldUpdate}
        → x.reader ≡ reading
        → x.channel ≡ u ∷ us
        → Step x (read_update (record x { channel = us }) u)
    sees_close :
        {x : Stream S}
        → x.reader ≡ reading
        → x.channel ≡ []
        → x.closed ≡ true
        → Step x (record x { reader = drained })
    handler_ends :
        {x : Stream S} {result : Option GoError}
        → x.agent ≡ waiting result
        → x.reader ≢ reading
        → Step x (end_handler x result)

  pub data Steps : Stream S → Stream S → Type 0 where
    here : {x : Stream S} → Steps x x
    followed_by : {x y z : Stream S} → Steps x y → Step y z → Steps x z
