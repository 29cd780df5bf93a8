-- ===== src/A2a/Send/Guards.antt =====
-- The start of `tasks/send` and `tasks/sendSubscribe` in server/a2a/capability.go: which calls
-- reach the agent's handler, and with which task.
use gate4ai.Prelude.{
  ℕ, ◌≡◌, ◌⊎◌, inl, inr, refl, ap, ◌∙◌, true, false, Option, none, some, List, [], ◌∷◌, ◌++◌,
  String, eq_iff, arith, if_cases,
}
use gate4ai.Dict
use gate4ai.Dict.{Dict, get-put_self}
use gate4ai.Jsonrpc.{GoError, invalid_request_code}
use gate4ai.A2a.{Task, TaskSendParams, ChatMessage, Params, missing, malformed, params, rpc_error}
use gate4ai.A2a.Store.{TaskStore, IsLawful, Saved, saved, save_fails, loaded}
use gate4ai.A2a.Handlers.{Handlers, is_handler_running, store_cancel_func}
use gate4ai.A2a.Conclude.{is_settled}
use gate4ai.A2a.Send.{
  Begun, begun, refused_send, panicked, begin_send, begin_loaded, begin_task, begin_saved,
  load_or_create_task, load_or_create, replace_metadata, add_message, continue_task,
}

-- The task of a user's message is ready for the handler: it is not at an end, it does not wait for
-- input, and its history ends with the message.
abbrev pub IsReady : Task → ChatMessage → Type 0
IsReady t m =
    (is_settled t.status.state ≡ false)
    × (before : List ChatMessage) × (t.history ≡ before ++ m ∷ [])

continued_state :
    (t : Task) (role : String) (now : ℕ)
    → role ≡ "user"
    → is_settled (continue_task t role now).status.state ≡ false
unfolding continue_task is_settled
continued_state t role now h = ground (arith, eq_iff role "user")

add_message-IsReady :
    (t : Task) (p : TaskSendParams)
    → p.message.role ≡ "user"
    → is_settled t.status.state ≡ false
    → IsReady (add_message t p) p.message
unfolding add_message
add_message-IsReady t p h k = rw ((eq_iff p.message.role "user").1 h) (k, t.history, refl)

id-continue_task : (t : Task) (role : String) (now : ℕ) → (continue_task t role now).id ≡ t.id
unfolding continue_task
id-continue_task t role now = ground arith

id-add_message : (t : Task) (p : TaskSendParams) → (add_message t p).id ≡ t.id
unfolding add_message
id-add_message t p = ground arith

module _ {S : Type 0} (store : TaskStore S) where
  -- What holds where a call reaches the handler.
  abbrev pub IsStarted : Handlers → ℕ → Begun S → Type 0
  IsStarted h c (refused_send s e) = Unit {0}
  IsStarted h c panicked = Unit {0}
  IsStarted h c (begun s' h' t p) =
      (store.load s' t.id ≡ loaded t)
      × (is_handler_running h t.id ≡ false)
      × (Dict.get h'.running t.id ≡ some c)
      × (p.message.role ≡ "user" → IsReady t p.message)

  saved-IsStarted :
      IsLawful store
      → (s : S) (r : Saved S) (h : Handlers) (t : Task) (p : TaskSendParams) (c : ℕ)
      → store.save s t ≡ r
      → is_handler_running h t.id ≡ false
      → (p.message.role ≡ "user" → IsReady t p.message)
      → IsStarted h c (begin_saved store s r h t p c)
  unfolding begin_saved store_cancel_func
  saved-IsStarted law s (save_fails e) h t p c k free ready = tt
  saved-IsStarted law s (saved s') h t p c k free ready =
      (law.load-save s s' t k, free, get-put_self h.running t.id c, ready)

  task-IsStarted :
      IsLawful store
      → (s : S) (h : Handlers) (t : Task) (p : TaskSendParams) (busy : String) (c now : ℕ)
      → IsStarted h c (begin_task store s h t p busy c now)
  unfolding begin_task
  task-IsStarted law s h t p busy c now =
      let ready = add_message (continue_task t p.message.role now) p in
      let same : ready.id ≡ t.id =
        id-add_message (continue_task t p.message.role now) p
        ∙ id-continue_task t p.message.role now in
      if_cases (IsStarted h c) (is_handler_running h t.id)
        (refused_send s (rpc_error invalid_request_code busy))
        (begin_saved store s (store.save s ready) h ready p c) (λ e. tt)
        (λ e.
          saved-IsStarted law s (store.save s ready) h ready p c refl
            (ap (is_handler_running h) same ∙ e)
            (λ user.
              add_message-IsReady (continue_task t p.message.role now) p user
                (continued_state t p.message.role now user)))

  loaded-IsStarted :
      IsLawful store
      → (s : S) (r : (S × Task) ⊎ GoError) (h : Handlers) (p : TaskSendParams) (busy : String)
        (c now : ℕ)
      → IsStarted h c (begin_loaded store s r h p busy c now)
  unfolding begin_loaded
  loaded-IsStarted law s (inl (s', t)) h p busy c now = task-IsStarted law s' h t p busy c now
  loaded-IsStarted law s (inr e) h p busy c now = tt

  -- With a store that keeps its laws, a call that reaches the handler found no handler running for
  -- its task, has stored the task that the handler gets, and its context is the running one. Where
  -- the message is the user's, that task is neither at an end nor waiting for input, and its
  -- history ends with the message.
  pub begin_send-IsStarted :
      IsLawful store
      → (s : S) (h : Handlers) (session_id : String) (q : Params TaskSendParams) (busy : String)
        (c now : ℕ)
      → IsStarted h c (begin_send store s h session_id q busy c now)
  unfolding begin_send
  begin_send-IsStarted law s h session_id missing busy c now = tt
  begin_send-IsStarted law s h session_id (malformed e) busy c now = tt
  begin_send-IsStarted law s h session_id (params p) busy c now =
      loaded-IsStarted law s (load_or_create_task store s p.id session_id p.metadata now) h p busy c
        now

  id-replace_metadata : (m : Option String) (t : Task) → (replace_metadata m t).id ≡ t.id
  unfolding replace_metadata
  id-replace_metadata none t = refl
  id-replace_metadata (some m) t = refl

  busy_task :
      (s : S) (h : Handlers) (t : Task) (p : TaskSendParams) (busy : String) (c now : ℕ)
      → is_handler_running h t.id ≡ true
      → begin_task store s h t p busy c now ≡ refused_send s (rpc_error invalid_request_code busy)
  unfolding begin_task
  busy_task s h t p busy c now k = rw k

  -- While a handler runs for a stored task, a further send to it is refused as an invalid request,
  -- and the store is left as it was, whatever metadata the request brings.
  begin_send_busy :
      (s : S) (h : Handlers) (session_id : String) (p : TaskSendParams) (busy : String) (c now : ℕ)
      (t : Task)
      → store.load s p.id ≡ loaded t
      → is_handler_running h t.id ≡ true
      → begin_send store s h session_id (params p) busy c now
        ≡ refused_send s (rpc_error invalid_request_code busy)
  unfolding begin_send load_or_create_task load_or_create begin_loaded
  begin_send_busy s h session_id p busy c now t k running =
      ap
        (λ r.
          begin_loaded store s (load_or_create store s r p.id session_id p.metadata now) h p busy c
            now)
        k
      ∙ busy_task s h (replace_metadata p.metadata t) p busy c now
          (ap (is_handler_running h) (id-replace_metadata p.metadata t) ∙ running)
