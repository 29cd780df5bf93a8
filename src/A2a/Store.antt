-- ===== src/A2a/Store.antt =====
-- `TaskStore` and `InMemoryTaskStore` of server/a2a/tasks.go. `S` is the state of a store.
use gate4ai.Prelude.{◌≡◌, ◌≢◌, sym, ap, ◌∙◌, Option, none, some, String}
use gate4ai.Dict
use gate4ai.Dict.{Dict, get-put_self, get-put_ne}
use gate4ai.Jsonrpc.{GoError, a2a}
use gate4ai.A2a.{Task, not_found_error}

pub data Saved (S : Type 0) : Type 0 where
  saved : S → Saved S
  save_fails : GoError → Saved S

pub data Loaded : Type 0 where
  loaded : Task → Loaded
  load_fails : GoError → Loaded

pub record TaskStore (S : Type 0) : Type 0 where
  pub save : S → Task → Saved S
  pub load : S → String → Loaded
  pub delete : S → String → Saved S

-- What the capability expects of a store: it reads back what it saved, and keeps the rest.
pub record IsLawful {S : Type 0} (store : TaskStore S) : Type 0 where
  pub load-save : (s s' : S) (t : Task) → store.save s t ≡ saved s' → store.load s' t.id ≡ loaded t
  pub load-save_ne :
      (s s' : S) (t : Task) (id : String)
      → t.id ≢ id
      → store.save s t ≡ saved s'
      → store.load s' id ≡ store.load s id

-- `Save` and `Load` copy the task. The copy is shallow: the arrays of its history and artifacts are
-- shared with the caller in the code, and values here.
abbrev pub InMemoryTaskStore : Type 0
InMemoryTaskStore = Dict Task

load_or_not_found : String → Option Task → Loaded
load_or_not_found id none = load_fails (a2a (not_found_error id))
load_or_not_found id (some t) = loaded t

unfoldable pub load_memory : InMemoryTaskStore → String → Loaded
unfolding load_or_not_found
load_memory s id = load_or_not_found id (Dict.get s id)

unfoldable pub save_memory : InMemoryTaskStore → Task → Saved InMemoryTaskStore
save_memory s t = saved (Dict.put s t.id t)

delete_found : InMemoryTaskStore → String → Option Task → Saved InMemoryTaskStore
delete_found s id none = save_fails (a2a (not_found_error id))
delete_found s id (some t) = saved (Dict.remove s id)

unfoldable pub delete_memory : InMemoryTaskStore → String → Saved InMemoryTaskStore
unfolding delete_found
delete_memory s id = delete_found s id (Dict.get s id)

abbrev pub in_memory : TaskStore InMemoryTaskStore
in_memory = record { save = save_memory; load = load_memory; delete = delete_memory }

saved_injective : {S : Type 0} (s s' : S) → saved s ≡ saved s' → s ≡ s'
saved_injective s s' h = cc

-- The store in memory keeps what a store promises: a task that was saved is loaded under its
-- identifier, and every other identifier leads where it led before.
pub in_memory-IsLawful : IsLawful in_memory
unfolding load_memory save_memory
in_memory-IsLawful = record {
  load-save = λ s s' t h.
      ap (λ d. load_memory d t.id) (sym (saved_injective (Dict.put s t.id t) s' h))
      ∙ ap (load_or_not_found t.id) (get-put_self s t.id t);
  load-save_ne = λ s s' t id ne h.
      ap (λ d. load_memory d id) (sym (saved_injective (Dict.put s t.id t) s' h))
      ∙ ap (load_or_not_found id) (get-put_ne s t.id id t ne);
}
