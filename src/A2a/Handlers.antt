-- ===== src/A2a/Handlers.antt =====
-- The table of running handlers in server/a2a/capability.go.
use gate4ai.Prelude.{ℕ, Bool, Option, none, some, List, [], ◌∷◌, String, is_some}
use gate4ai.Dict
use gate4ai.Dict.{Dict}

-- A context is known by a number. `running` maps a task to the context of its handler, and
-- `cancelled` lists the contexts that have been cancelled.
pub record Handlers : Type 0 where
  pub running : Dict ℕ
  pub cancelled : List ℕ

abbrev pub no_handlers : Handlers
no_handlers = record { running = []; cancelled = [] }

abbrev pub cancel_context : Option ℕ → List ℕ → List ℕ
cancel_context none cs = cs
cancel_context (some c) cs = c ∷ cs

unfoldable pub store_cancel_func : Handlers → String → ℕ → Handlers
store_cancel_func h id c = record {
  running = Dict.put h.running id c;
  cancelled = cancel_context (Dict.get h.running id) h.cancelled;
}

unfoldable pub remove_cancel_func : Handlers → String → Handlers
remove_cancel_func h id = record h { running = Dict.remove h.running id }

abbrev pub is_handler_running : Handlers → String → Bool
is_handler_running h id = Dict.has h.running id

-- The flag says whether there was a handler to cancel.
unfoldable pub cancel_handler : Handlers → String → Handlers × Bool
cancel_handler h id = (
  record {
    running = Dict.remove h.running id;
    cancelled = cancel_context (Dict.get h.running id) h.cancelled;
  },
  is_some (Dict.get h.running id),
)
