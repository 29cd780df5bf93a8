-- ===== src/A2a/Update/Artifacts.antt =====
-- The artifacts of a task under updates: `applyUpdateToTask` of server/a2a/capability.go.
use gate4ai.Prelude.{
  if_cases, ◌≡◌, ◌≢◌, refl, false, Option, none, some, List, [], ◌∷◌, arith, if◌then◌else◌, ℤ,
  beq_ℤ, beq_ℤ_iff,
}
use gate4ai.A2a.{Artifact}
use gate4ai.A2a.Update.{place_artifact, merge_artifact}

abbrev pub find_artifact : List Artifact → ℤ → Option Artifact
find_artifact [] i = none
find_artifact (a ∷ more) i = if beq_ℤ a.index i then some a else find_artifact more i

abbrev pub merged : Option Artifact → Artifact → Artifact
merged none new = new
merged (some old) new = merge_artifact old new

index-merge_artifact :
    (old new : Artifact) → old.index ≡ new.index → (merge_artifact old new).index ≡ new.index
unfolding merge_artifact
index-merge_artifact old new h = ground arith

-- After an update the artifact of its index is the update merged with the one that was there, and
-- the artifacts of other indices are untouched.
find-place_artifact :
    (xs : List Artifact) (new : Artifact) (i : ℤ)
    → find_artifact (place_artifact xs new) i ≡ (
        if beq_ℤ new.index i
        then some (merged (find_artifact xs new.index) new)
        else find_artifact xs i)
unfolding place_artifact
find-place_artifact [] new i = refl
find-place_artifact (a ∷ more) new i = ground (
  arith,
  find-place_artifact more new i,
  beq_ℤ_iff a.index new.index,
  beq_ℤ_iff new.index i,
  beq_ℤ_iff a.index i,
  beq_ℤ_iff (merge_artifact a new).index i,
  index-merge_artifact a new,
)

abbrev Absent : ℤ → List Artifact → Type 0
Absent i xs = find_artifact xs i ≡ none

-- No index occurs twice.
abbrev pub Distinct : List Artifact → Type 0
Distinct [] = Unit {0}
Distinct (a ∷ more) = (find_artifact more a.index ≡ none) × Distinct more

absent-place_artifact :
    (xs : List Artifact) (new : Artifact) (i : ℤ)
    → new.index ≢ i
    → find_artifact xs i ≡ none
    → find_artifact (place_artifact xs new) i ≡ none
absent-place_artifact xs new i ne h =
    ground (arith, find-place_artifact xs new i, beq_ℤ_iff new.index i)

different : (i j : ℤ) → beq_ℤ i j ≡ false → j ≢ i
different i j h = ground (arith, beq_ℤ_iff i j)

-- Updates keep the indices of a task's artifacts distinct.
pub place_artifact-Distinct :
    (xs : List Artifact) (new : Artifact) → Distinct xs → Distinct (place_artifact xs new)
unfolding place_artifact
place_artifact-Distinct [] new d = (refl, tt)
place_artifact-Distinct (a ∷ more) new d =
    if_cases Distinct (beq_ℤ a.index new.index) (merge_artifact a new ∷ more)
      (a ∷ place_artifact more new)
      (λ e. (
        ground (
          arith,
          d.0,
          index-merge_artifact a new ((beq_ℤ_iff a.index new.index).0 e),
          (beq_ℤ_iff a.index new.index).0 e,
        ),
        d.1,
      ))
      (λ e. (
        absent-place_artifact more new a.index (different a.index new.index e) d.0,
        place_artifact-Distinct more new d.1,
      ))
