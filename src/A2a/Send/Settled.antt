-- ===== src/A2a/Send/Settled.antt =====
-- What `tasks/send` leaves behind: `handleTaskSend` of server/a2a/capability.go.
use mathlib.Core.Path.{subst}
use gate4ai.Prelude.{
  ℕ, ◌≡◌, ◌⊎◌, inl, inr, refl, sym, ap, ◌∙◌, true, false, Option, none, some, List, [], ◌∷◌, String,
  arith, is_some,
}
use gate4ai.Dict
use gate4ai.Dict.{Dict, get-remove_self}
use gate4ai.Jsonrpc.{GoError, RpcError, internal_code}
use gate4ai.A2a.{Task, TaskSendParams, Params, TaskReply, task_error, YieldUpdate, rpc_error}
use gate4ai.A2a.Conclude.Settled.{conclude-IsSettled, id-conclude}
use gate4ai.A2a.Store.{TaskStore, IsLawful, Saved, saved, save_fails, loaded}
use gate4ai.A2a.Update.{apply_update, id-apply_update}
use gate4ai.A2a.Handlers.{Handlers, remove_cancel_func, is_handler_running}
use gate4ai.A2a.Conclude.{Progress, is_settled, conclude}
use gate4ai.A2a.Send.{
  HandlerRun, begun, drain, after_update, run_updates, saved_midway, failed_save, finish_send,
  finish_saved, begin_send, complete_send, handle_task_send, took, one_less,
}

id-drain : (p : Progress) (us : List YieldUpdate) (now : ℕ) → (drain p us now).last.id ≡ p.last.id
unfolding drain
id-drain p [] now = refl
id-drain p (u ∷ us) now = ground (
  arith,
  id-drain (record p { last = apply_update p.last u now }) us now,
  id-apply_update p.last u now,
)

-- The client is told that the final state was not saved.
abbrev pub FinalSaveFailed : TaskReply → Type 0
FinalSaveFailed r = r ≡ task_error (rpc_error internal_code "Failed to save final task state")

module _ {S : Type 0} (store : TaskStore S) where
  id-saved_midway :
      (s : S) (r : Saved S) (p : Progress) (now : ℕ)
      → (saved_midway store s r p now).1.last.id ≡ p.last.id
  unfolding saved_midway failed_save
  id-saved_midway s (saved s') p now = refl
  id-saved_midway s (save_fails e) p now = refl

  id-after_update :
      (s : S) (p : Progress) (e : Option RpcError) (now : ℕ)
      → (after_update store s p e now).1.last.id ≡ p.last.id
  unfolding after_update
  id-after_update s p (some e) now = refl
  id-after_update s p none now = ground (arith, id-saved_midway s (store.save s p.last) p now)

  id-run_updates :
      (s : S) (p : Progress) (result : Option GoError) (pick : Option ℕ) (us : List YieldUpdate)
      (now : ℕ)
      → (run_updates store s p result pick us now).1.last.id ≡ p.last.id
  unfolding run_updates
  id-run_updates s p result none [] now = refl
  id-run_updates s p result (some n) [] now = refl
  id-run_updates s p result pick (u ∷ us) now =
      let next = record p { last = apply_update p.last u now } in
      let after = after_update store s next u.error now in
      ground (
        arith,
        id-drain (took p result) (u ∷ us) now,
        id-drain after.1 us now,
        id-run_updates after.0 after.1 result (one_less pick) us now,
        id-after_update s next u.error now,
        id-apply_update p.last u now,
      )

  abbrev pub IsSettledAt : S → String → Type 0
  IsSettledAt s id = (t : Task) × (store.load s id ≡ loaded t) × (is_settled t.status.state ≡ true)

  -- How a call leaves the task `id`.
  abbrev pub Settles : S × Handlers × TaskReply → String → Type 0
  Settles (s, h, reply) id =
      (FinalSaveFailed reply ⊎ IsSettledAt s id) × (is_handler_running h id ≡ false)

  finish_saved_settles :
      IsLawful store
      → (s : S) (r : Saved S) (p : Progress) (q : TaskSendParams) (id : String)
      → store.save s p.last ≡ r
      → is_settled p.last.status.state ≡ true
      → p.last.id ≡ id
      → FinalSaveFailed (finish_saved store s r p q).1
        ⊎ IsSettledAt (finish_saved store s r p q).0 id
  unfolding finish_saved
  finish_saved_settles law s (save_fails e) p q id h k n = inl refl
  finish_saved_settles law s (saved s') p q id h k n =
      inr (p.last, ap (store.load s') (sym n) ∙ law.load-save s s' p.last h, k)

  finish_send-Settles :
      IsLawful store
      → (s : S) (p : Progress) (h : Handlers) (q : TaskSendParams) (now : ℕ) (id : String)
      → p.last.id ≡ id
      → Settles (finish_send store (s, p) h q now) id
  unfolding finish_send remove_cancel_func
  finish_send-Settles law s p h q now id n = (
    finish_saved_settles law s (store.save s (conclude p now).last) (conclude p now) q id refl
        (conclude-IsSettled p now) (id-conclude p now ∙ n),
    ap (λ i. is_some (Dict.get (Dict.remove h.running p.last.id) i)) (sym n)
        ∙ ap is_some (get-remove_self h.running p.last.id),
  )

  -- With a store that keeps its laws, a `tasks/send` that came to the handler ends, whatever the
  -- handler yields and returns and whichever channel is read first, with the handler no longer
  -- running, and, unless the last save fails, which the client is told, with the task stored under
  -- its identifier in a state that waits for input or is terminal.
  pub handle_task_send-Settles :
      IsLawful store
      → (s s' : S) (h h' : Handlers) (session_id : String) (q : Params TaskSendParams)
        (p : TaskSendParams) (run : HandlerRun) (c now : ℕ) (t : Task)
      → begin_send store s h session_id q "Task is already processing" c now ≡ begun s' h' t p
      → Settles (handle_task_send store s h session_id q run c now) t.id
  unfolding handle_task_send complete_send
  handle_task_send-Settles law s s' h h' session_id q p run c now t e =
      let start : Progress = record { last = t; handler_error = none; client_error = none } in
      let end_ = run_updates store s' start run.result run.taken_after run.updates now in
      subst (λ b. Settles (complete_send store b s h run now) t.id) (sym e)
        (finish_send-Settles law end_.0 end_.1 h' p now t.id
          (id-run_updates s' start run.result run.taken_after run.updates now))
