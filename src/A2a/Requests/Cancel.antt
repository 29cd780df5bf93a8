-- ===== src/A2a/Requests/Cancel.antt =====
-- `tasks/get` and `tasks/cancel` of server/a2a/capability.go together.
use mathlib.Core.Path.{subst}
use gate4ai.Prelude.{
  ℕ, zero, suc, ◌-◌, ◌≤◌, ◌≡◌, refl, sym, ap, ◌∙◌, true, false, some, List, [], ◌∷◌, ◌++◌, String,
  arith, is_some, length, drop, length-drop, pos,
}
use gate4ai.Dict
use gate4ai.Dict.{Dict, get-remove_self}
use gate4ai.Jsonrpc.{a2a, new_jsonrpc_error}
use gate4ai.A2a.{
  Task, ChatMessage, TaskQueryParams, params, TaskReply, task_reply, task_error, is_terminal_state,
  not_cancelable_error, trim_history, trimmed,
}
use gate4ai.A2a.Store.{TaskStore, IsLawful, saved, loaded}
use gate4ai.A2a.Handlers.{Handlers, cancel_handler, cancel_context, is_handler_running}
use gate4ai.A2a.Requests.{
  handle_task_get, handle_task_cancel, cancel_loaded, cancel_saved, canceled_task, without_lists,
  get_loaded,
}

module _ {S : Type 0} (store : TaskStore S) where
  cancel_running :
      (s s' : S) (h : Handlers) (id : String) (t : Task) (now : ℕ)
      → store.load s id ≡ loaded t
      → is_terminal_state t.status.state ≡ false
      → store.save s (canceled_task t now) ≡ saved s'
      → handle_task_cancel store s h (params id) now
        ≡ (s', (cancel_handler h id).0, task_reply (without_lists (canceled_task t now)))
  unfolding handle_task_cancel cancel_loaded cancel_saved
  cancel_running s s' h id t now l open_ k =
      ap (λ r. cancel_loaded store s r h id now) l
      ∙ rw open_ (ap (λ r. cancel_saved store s r (cancel_handler h id).0 (canceled_task t now)) k)

  get_stored :
      (s : S) (p : TaskQueryParams) (t : Task)
      → store.load s p.id ≡ loaded t
      → handle_task_get store s (params p) ≡ task_reply (trimmed p.history_length t)
  unfolding handle_task_get
  get_stored s p t l = ap (λ r. get_loaded r p) l

  -- A task at its end cannot be canceled: the client gets the error, and nothing changes.
  pub handle_task_cancel_terminal :
      (s : S) (h : Handlers) (id : String) (t : Task) (now : ℕ)
      → store.load s id ≡ loaded t
      → is_terminal_state t.status.state ≡ true
      → handle_task_cancel store s h (params id) now
        ≡ (s, h, task_error (new_jsonrpc_error (a2a (not_cancelable_error id))))
  unfolding handle_task_cancel cancel_loaded
  handle_task_cancel_terminal s h id t now l over =
      ap (λ r. cancel_loaded store s r h id now) l ∙ rw over

  -- With a store that keeps its laws, a task that is stored under its identifier, is not at its end
  -- and has a running handler is canceled, where the canceled task can be saved: `tasks/get` then
  -- returns it as canceled, with its artifacts and as much history as asked for, no handler runs
  -- for it, the context of the one that did is cancelled, and a second `tasks/cancel` is refused
  -- and changes nothing.
  pub handle_task_cancel_cancels :
      IsLawful store
      → (s s' : S) (h : Handlers) (p : TaskQueryParams) (t : Task) (now later c : ℕ)
      → store.load s p.id ≡ loaded t
      → t.id ≡ p.id
      → is_terminal_state t.status.state ≡ false
      → store.save s (canceled_task t now) ≡ saved s'
      → Dict.get h.running p.id ≡ some c
      → let (after, h', reply) = handle_task_cancel store s h (params p.id) now in
        (handle_task_get store after (params p)
          ≡ task_reply (trimmed p.history_length (canceled_task t now)))
        × (is_handler_running h' p.id ≡ false)
        × (h'.cancelled ≡ c ∷ h.cancelled)
        × (handle_task_cancel store after h' (params p.id) later
            ≡ (after, h', task_error (new_jsonrpc_error (a2a (not_cancelable_error p.id)))))
  unfolding cancel_handler canceled_task
  handle_task_cancel_cancels law s s' h p t now later c l same open_ k running =
      let stored : store.load s' p.id ≡ loaded (canceled_task t now) =
        ap (store.load s') (sym same) ∙ law.load-save s s' (canceled_task t now) k in
      subst
        (λ (r : S × Handlers × TaskReply).
          (handle_task_get store r.0 (params p)
            ≡ task_reply (trimmed p.history_length (canceled_task t now)))
          × (is_handler_running r.1 p.id ≡ false)
          × (r.1.cancelled ≡ c ∷ h.cancelled)
          × (handle_task_cancel store r.0 r.1 (params p.id) later
              ≡ (r.0, r.1, task_error (new_jsonrpc_error (a2a (not_cancelable_error p.id))))))
        (sym (cancel_running s s' h p.id t now l open_ k))
        (
          get_stored s' p (canceled_task t now) stored,
          ap is_some (get-remove_self h.running p.id),
          ap (λ o. cancel_context o h.cancelled) running,
          handle_task_cancel_terminal s' (cancel_handler h p.id).0 p.id (canceled_task t now) later
              stored refl,
        )

drop-suffix {ℓ} :
    {A : Type ℓ} (k : ℕ) (xs : List A) → (before : List A) × (xs ≡ before ++ drop k xs)
drop-suffix zero xs = ([], refl)
drop-suffix (suc k) [] = ([], refl)
drop-suffix (suc k) (x ∷ xs) =
    let (before, e) = drop-suffix k xs in (x ∷ before, ap (λ ys. x ∷ ys) e)

-- The history that a client gets is as long as it asked for, or shorter: the last messages.
trim_history_suffix :
    (n : ℕ) (h : List ChatMessage)
    → (length (trim_history (some (pos n)) h) ≤ n)
      × (before : List ChatMessage) × (h ≡ before ++ trim_history (some (pos n)) h)
unfolding trim_history
trim_history_suffix n h = (
  omega (arith, length-drop (length h - n) h),
  (drop-suffix (length h - n) h).0,
  (drop-suffix (length h - n) h).1,
)
