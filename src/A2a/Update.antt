-- ===== src/A2a/Update.antt =====
-- `applyUpdateToTask` of server/a2a/capability.go. A task is a value here, so that the copies it
-- makes, and its test for a nil task, have nothing to do.
pub mod Artifacts
use gate4ai.Prelude.{
  ℕ, ◌+◌, ◌-◌, ◌≡◌, refl, Bool, true, false, Option, none, some, List, [], ◌∷◌, ◌++◌, ◌==◌, arith,
  eqb, if◌then◌else◌, beq_ℤ,
}
use gate4ai.A2a.{Task, TaskStatus, ChatMessage, Artifact, YieldUpdate, create_error_status}
use gate4ai.Jsonrpc.{RpcError, a2a}

of_agent : Option ChatMessage → List ChatMessage
of_agent none = []
of_agent (some m) = if m.role == "agent" then m ∷ [] else []

stamped : TaskStatus → ℕ → TaskStatus
stamped s now = if eqb s.timestamp 0 then record s { timestamp = now } else s

apply_status : Task → TaskStatus → ℕ → Task
unfolding stamped of_agent
apply_status t s now = record t {
  status = stamped s now;
  history = t.history ++ of_agent s.message;
}

or_else : Option Bool → Option Bool → Option Bool
or_else none old = old
or_else (some b) old = some b

abbrev pub appends : Option Bool → Bool
appends (some true) = true
appends _ = false

unfoldable pub merge_artifact : Artifact → Artifact → Artifact
unfolding or_else
merge_artifact old new =
    if appends new.append
    then record old {
      parts = old.parts ++ new.parts;
      last_chunk = or_else new.last_chunk old.last_chunk;
    }
    else new

-- The first artifact with the index of the update is merged with it; without one it is appended.
unfoldable pub place_artifact : List Artifact → Artifact → List Artifact
unfolding merge_artifact
place_artifact [] new = new ∷ []
place_artifact (old ∷ more) new =
    let rest = place_artifact more new in
    if beq_ℤ old.index new.index then merge_artifact old new ∷ more else old ∷ rest

apply_artifact : Task → Artifact → ℕ → Task
apply_artifact t a now = record t {
  artifacts = place_artifact t.artifacts a;
  status = record t.status { timestamp = now };
}

apply_error : Task → Option RpcError → ℕ → Task
apply_error t none now = t
apply_error t (some e) now = record t { status = create_error_status (a2a e) (some e) now }

apply_parts : Task → Option TaskStatus → Option Artifact → Option RpcError → ℕ → Task
unfolding apply_status apply_artifact apply_error
apply_parts t (some s) a e now = apply_status t s now
apply_parts t none (some a) e now = apply_artifact t a now
apply_parts t none none e now = apply_error t e now

unfoldable pub apply_update : Task → YieldUpdate → ℕ → Task
unfolding apply_parts
apply_update t u now = apply_parts t u.status u.artifact u.error now

id-apply_parts :
    (t : Task) (s : Option TaskStatus) (a : Option Artifact) (e : Option RpcError) (now : ℕ)
    → (apply_parts t s a e now).id ≡ t.id
unfolding apply_parts
id-apply_parts t (some s) a e now = refl
id-apply_parts t none (some a) e now = refl
id-apply_parts t none none (some e) now = refl
id-apply_parts t none none none now = refl

pub id-apply_update : (t : Task) (u : YieldUpdate) (now : ℕ) → (apply_update t u now).id ≡ t.id
unfolding apply_update
id-apply_update t u now = id-apply_parts t u.status u.artifact u.error now
