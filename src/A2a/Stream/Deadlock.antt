-- ===== src/A2a/Stream/Deadlock.antt =====
-- How a stream of `tasks/sendSubscribe` in server/a2a/capability.go ends.
use gate4ai.Prelude.{
  ℕ, ◌≡◌, ◌≢◌, ◌⊎◌, inl, inr, refl, sym, ◌∙◌, true, Option, none, some, List, [], arith, if_cases,
}
use gate4ai.Jsonrpc.{GoError, RpcError, canceled, a2a, plain, rpc}
use gate4ai.Session.{Session}
use gate4ai.Session.Send.{StreamEvent}
use gate4ai.A2a.{Task, YieldUpdate}
use gate4ai.A2a.Store.{TaskStore, Saved, saved, save_fails, Loaded, loaded, load_fails}
use gate4ai.A2a.Update.{apply_update}
use gate4ai.A2a.Handlers.{Handlers}
use gate4ai.A2a.Stream.{
  Stream, waiting, finished, Reader, reading, drained, stopped, EventJson, start_stream, sends,
  cancels, send_or_cancel, saved_update, read_error, read_update, end_event, end_failed,
  end_completed, end_result, end_handler, event_of, Step, yields, handler_returns, reads,
  sees_close, handler_ends, Steps, here, followed_by, was_sent,
}

-- What the reader's body leaves alone: it stops, or the running handlers stay as they are.
record Keeps {S : Type 0} (x y : Stream S) : Type 0 where
  agent_kept : y.agent ≡ x.agent
  closed_kept : y.closed ≡ x.closed
  task_kept : y.task ≡ x.task
  goes_on : (y.reader ≡ stopped) ⊎ ((y.reader ≡ x.reader) × (y.handlers ≡ x.handlers))

module _ {S : Type 0} (store : TaskStore S) (json : EventJson) (now : ℕ) where
  kept_send : (x : Stream S) (e : Option StreamEvent) → Keeps x (send_or_cancel store json now x e)
  unfolding send_or_cancel
  kept_send x none = record {
    agent_kept = refl;
    closed_kept = refl;
    task_kept = refl;
    goes_on = inr (refl, refl);
  }
  kept_send x (some e) =
      if_cases (Keeps x) (was_sent (sends store json now x e).1) (sends store json now x e).0
        (cancels store json now (sends store json now x e).0)
        (λ h. record {
          agent_kept = refl;
          closed_kept = refl;
          task_kept = refl;
          goes_on = inr (refl, refl);
        })
        (λ h. record {
          agent_kept = refl;
          closed_kept = refl;
          task_kept = refl;
          goes_on = inl refl;
        })

  kept_saved :
      (x : Stream S) (r : Saved S) (u : YieldUpdate) → Keeps x (saved_update store json now x r u)
  unfolding saved_update
  kept_saved x (save_fails e) u = record {
    agent_kept = refl;
    closed_kept = refl;
    task_kept = refl;
    goes_on = inl refl;
  }
  kept_saved x (saved s) u =
      let k =
        kept_send (record x { store = s }) (event_of json x.task x.last u.status u.artifact) in
      record {
        agent_kept = k.agent_kept;
        closed_kept = k.closed_kept;
        task_kept = k.task_kept;
        goes_on = k.goes_on;
      }

  kept_error :
      (x : Stream S) (e : Option RpcError) (u : YieldUpdate)
      → Keeps x (read_error store json now x e u)
  unfolding read_error
  kept_error x none u = kept_saved x (store.save x.store x.last) u
  kept_error x (some e) u = record {
    agent_kept = refl;
    closed_kept = refl;
    task_kept = refl;
    goes_on = inl refl;
  }

  kept_update : (x : Stream S) (u : YieldUpdate) → Keeps x (read_update store json now x u)
  unfolding read_update
  kept_update x u =
      let k = kept_error (record x { last = apply_update x.last u now }) u.error u in
      record {
        agent_kept = k.agent_kept;
        closed_kept = k.closed_kept;
        task_kept = k.task_kept;
        goes_on = k.goes_on;
      }

  reader-end_completed :
      (x : Stream S) (l : Loaded) → (end_completed store json now x l).reader ≡ x.reader
  unfolding end_completed end_event
  reader-end_completed x (load_fails e) = refl
  reader-end_completed x (loaded t) = ground arith

  reader-end_result :
      (x : Stream S) (r : Option GoError) → (end_result store json now x r).reader ≡ x.reader
  unfolding end_result end_failed end_event
  reader-end_result x none = reader-end_completed x (store.load x.store x.task.id)
  reader-end_result x (some canceled) = refl
  reader-end_result x (some (plain s)) = refl
  reader-end_result x (some (rpc e)) = refl
  reader-end_result x (some (a2a e)) = refl

  -- The invariant of a stream that was started with the handlers `h`.
  record IsOpen (h : Handlers) (task : Task) (x : Stream S) : Type 0 where
    closed_after : x.closed ≡ true → x.reader ≡ stopped
    ended_after : x.agent ≡ finished → x.reader ≡ stopped
    not_drained : x.reader ≢ drained
    running : x.reader ≡ reading → x.handlers ≡ h
    same_task : x.reader ≡ reading → x.task ≡ task

  update-IsOpen :
      (h : Handlers) (task : Task) (x : Stream S) (us : List YieldUpdate) (u : YieldUpdate)
      → x.reader ≡ reading
      → IsOpen h task x
      → IsOpen h task (read_update store json now (record x { channel = us }) u)
  update-IsOpen h task x us u r v =
      let y = read_update store json now (record x { channel = us }) u in
      let k = kept_update (record x { channel = us }) u in
      record {
        closed_after = λ c. ground (arith, v.closed_after, k.closed_kept, r, c);
        ended_after = λ e. ground (arith, v.ended_after, k.agent_kept, r, e);
        not_drained = λ e. ground (arith, k.goes_on, r, e);
        running = λ e. ground (arith, k.goes_on, v.running, r, e);
        same_task = λ e. ground (arith, k.task_kept, v.same_task, r, e);
      }

  stop_of_end : (r : Reader) → r ≢ reading → r ≢ drained → r ≡ stopped
  stop_of_end reading a b = absurd (a refl)
  stop_of_end drained a b = absurd (b refl)
  stop_of_end stopped a b = refl

  end-IsOpen :
      (h : Handlers) (task : Task) (x : Stream S) (result : Option GoError)
      → x.reader ≢ reading
      → IsOpen h task x
      → IsOpen h task (end_handler store json now x result)
  unfolding end_handler
  end-IsOpen h task x result ne v =
      let kept : (end_result store json now x result).reader ≡ x.reader =
        reader-end_result x result in
      let over : (end_result store json now x result).reader ≡ stopped =
        kept ∙ stop_of_end x.reader ne v.not_drained in
      record {
        closed_after = λ c. over;
        ended_after = λ e. over;
        not_drained = λ e. v.not_drained (sym kept ∙ e);
        running = λ e. absurd (ne (sym kept ∙ e));
        same_task = λ e. absurd (ne (sym kept ∙ e));
      }

  Step-IsOpen :
      (h : Handlers) (task : Task) (x y : Stream S)
      → Step store json now x y
      → IsOpen h task x
      → IsOpen h task y
  Step-IsOpen h task x _ (yields e room) v = record {
    closed_after = v.closed_after;
    ended_after = λ f. absurd (cc);
    not_drained = v.not_drained;
    running = v.running;
    same_task = v.same_task;
  }
  Step-IsOpen h task x _ (handler_returns e) v = record {
    closed_after = v.closed_after;
    ended_after = λ f. absurd (cc);
    not_drained = v.not_drained;
    running = v.running;
    same_task = v.same_task;
  }
  Step-IsOpen h task x _ (reads {u = u} {us = us} r c) v = update-IsOpen h task x us u r v
  Step-IsOpen h task x _ (sees_close r c closed) v =
      let e : x.reader ≡ stopped = v.closed_after closed in absurd (cc)
  Step-IsOpen h task x _ (handler_ends {result = result} e ne) v = end-IsOpen h task x result ne v

  Steps-IsOpen :
      (h : Handlers) (task : Task) (x y : Stream S)
      → Steps store json now x y
      → IsOpen h task x
      → IsOpen h task y
  Steps-IsOpen h task x _ here v = v
  Steps-IsOpen h task x z (followed_by {y = y} s t) v =
      Step-IsOpen h task y z t (Steps-IsOpen h task x y s v)

  start-IsOpen :
      (s : S) (h : Handlers) (session : Session) (t : Task) (us : List YieldUpdate)
      (result : Option GoError)
      → IsOpen h t (start_stream s h session t us result)
  unfolding start_stream
  start-IsOpen s h session t us result = record {
    closed_after = λ c. absurd (cc);
    ended_after = λ e. absurd (cc);
    not_drained = λ e. absurd (cc);
    running = λ e. refl;
    same_task = λ e. refl;
  }

  stuck :
      (h : Handlers) (task : Task) (x : Stream S) (r : Option GoError)
      → IsOpen h task x
      → x.agent ≡ waiting r
      → x.reader ≡ reading
      → x.channel ≡ []
      → (y : Stream S) → ¬ Step store json now x y
  stuck h task x r v waits reads_on empty _ (yields e room) = absurd (cc)
  stuck h task x r v waits reads_on empty _ (handler_returns e) = absurd (cc)
  stuck h task x r v waits reads_on empty _ (reads e c) = absurd (cc)
  stuck h task x r v waits reads_on empty _ (sees_close e c closed) =
      let e' : x.reader ≡ stopped = v.closed_after closed in absurd (cc)
  stuck h task x r v waits reads_on empty _ (handler_ends e ne) = absurd (ne reads_on)

  -- In every state that a stream reaches, the handler's goroutine is at its end only where the
  -- reader was stopped by an error, and the reader has not seen the channel of updates closed.
  stream_ends_by_error :
      (s : S) (h : Handlers) (session : Session) (t : Task) (us : List YieldUpdate)
      (result : Option GoError) (x : Stream S)
      → Steps store json now (start_stream s h session t us result) x
      → (x.agent ≡ finished → x.reader ≡ stopped) × (x.reader ≢ drained)
  stream_ends_by_error s h session t us result x steps =
      let v = Steps-IsOpen h t _ x steps (start-IsOpen s h session t us result) in
      (v.ended_after, v.not_drained)

  -- A stream that was started as `tasks/sendSubscribe` starts it, and in which the reader still
  -- reads, is stuck once the handler has returned and its updates are read: no step is possible,
  -- and the table of running handlers and the task are those that it was started with.
  pub stream_deadlock :
      (s : S) (h : Handlers) (session : Session) (t : Task) (us : List YieldUpdate)
      (result r : Option GoError) (x : Stream S)
      → Steps store json now (start_stream s h session t us result) x
      → x.agent ≡ waiting r
      → x.reader ≡ reading
      → x.channel ≡ []
      → ((y : Stream S) → ¬ Step store json now x y) × (x.handlers ≡ h) × (x.task ≡ t)
  stream_deadlock s h session t us result r x steps waits reads_on empty =
      let v = Steps-IsOpen h t _ x steps (start-IsOpen s h session t us result) in
      (stuck h t x r v waits reads_on empty, v.running reads_on, v.same_task reads_on)
