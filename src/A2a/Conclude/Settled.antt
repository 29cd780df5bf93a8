-- ===== src/A2a/Conclude/Settled.antt =====
-- In which states the end of `handleTaskSend` in server/a2a/capability.go leaves a task.
use gate4ai.Prelude.{ℕ, ◌≡◌, refl, true, Option, none, some, arith, if◌then◌else◌, if_cases}
use gate4ai.Jsonrpc.{GoError, plain, canceled, rpc, a2a}
use gate4ai.A2a.{TaskState, is_canceled, is_failed, create_error_status}
use gate4ai.A2a.Conclude.{
  Progress, is_settled, fail_with, set_state, conclude_error, conclude_with, conclude,
}

SettledProgress : Progress → Type 0
SettledProgress p = is_settled p.last.status.state ≡ true

settled_if_failed : (t : TaskState) → is_failed t ≡ true → is_settled t ≡ true
unfolding is_settled
settled_if_failed t h = ground arith

settled_if_canceled : (t : TaskState) → is_canceled t ≡ true → is_settled t ≡ true
unfolding is_settled
settled_if_canceled t h = ground arith

fail_with-IsSettled :
    (e : GoError) (p : Progress) (now : ℕ) → is_settled (fail_with e p now).last.status.state ≡ true
unfolding fail_with is_settled create_error_status
fail_with-IsSettled (plain s) p now = refl
fail_with-IsSettled canceled p now = refl
fail_with-IsSettled (rpc e) p now = refl
fail_with-IsSettled (a2a e) p now = refl

failing-IsSettled :
    (e : GoError) (p : Progress) (now : ℕ)
    → SettledProgress (if is_failed p.last.status.state then p else fail_with e p now)
unfolding SettledProgress
failing-IsSettled e p now =
    if_cases SettledProgress (is_failed p.last.status.state) p (fail_with e p now)
      (settled_if_failed p.last.status.state) (λ k. fail_with-IsSettled e p now)

error-IsSettled :
    (e : GoError) (p : Progress) (now : ℕ)
    → is_settled (conclude_error e p now).last.status.state ≡ true
unfolding conclude_error SettledProgress is_settled
error-IsSettled (plain s) p now = failing-IsSettled (plain s) p now
error-IsSettled canceled p now =
    if_cases SettledProgress (is_canceled p.last.status.state) p
      (record p { last = set_state TaskState.canceled p.last now })
      (settled_if_canceled p.last.status.state) (λ k. refl)
error-IsSettled (rpc e) p now = failing-IsSettled (rpc e) p now
error-IsSettled (a2a e) p now = failing-IsSettled (a2a e) p now

with-IsSettled :
    (o : Option GoError) (p : Progress) (now : ℕ)
    → is_settled (conclude_with o p now).last.status.state ≡ true
unfolding conclude_with SettledProgress is_settled
with-IsSettled none p now =
    if_cases SettledProgress (is_settled p.last.status.state) p
      (record p { last = set_state TaskState.completed p.last now }) (λ k. k) (λ k. refl)
with-IsSettled (some e) p now = error-IsSettled e p now

-- However the handler ended, the task that the call saves at the end waits for input, or is
-- completed, failed or canceled.
pub conclude-IsSettled :
    (p : Progress) (now : ℕ) → is_settled (conclude p now).last.status.state ≡ true
unfolding conclude
conclude-IsSettled p now = with-IsSettled p.handler_error p now

id-error : (e : GoError) (p : Progress) (now : ℕ) → (conclude_error e p now).last.id ≡ p.last.id
unfolding conclude_error
id-error (plain s) p now = ground arith
id-error canceled p now = ground arith
id-error (rpc e) p now = ground arith
id-error (a2a e) p now = ground arith

id-with :
    (o : Option GoError) (p : Progress) (now : ℕ) → (conclude_with o p now).last.id ≡ p.last.id
unfolding conclude_with
id-with none p now = ground arith
id-with (some e) p now = id-error e p now

-- The task keeps its identifier.
pub id-conclude : (p : Progress) (now : ℕ) → (conclude p now).last.id ≡ p.last.id
unfolding conclude
id-conclude p now = id-with p.handler_error p now
