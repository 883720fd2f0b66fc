-- ===== src/Cook/Pruning.antt =====
-- `PruneToTarget` of internal/cook/helpers.go: the steps that a single step of a recipe needs.
pub mod Closure
pub mod Kept
use Prim.Native.Nat.{ℕ, zero, suc}
use mathlib.Core.Bool.{Bool, true, false}
use mathlib.Core.Option.{none, some}
use mathlib.Core.List.{List, [], ◌∷◌}
use grlx.Common.{Str, contains, keep, Result, ok, err, ◌>>=◌, if◌then◌else◌}
use grlx.Cook.Steps.{Step, all_ids}
use grlx.Cook.Run.{step_of}

-- `ErrTargetStepNotFound` and `ErrDanglingRequisite`, each with the id of its message.
pub data PruneError : Type 0 where
  target_step_not_found dangling_requisite : Str → PruneError
  out_of_fuel : PruneError

-- The loop of `visit` over the requisites of a step.
pub visit_all :
    (Str → List Str → Result PruneError (List Str))
    → List Str
    → List Str
    → Result PruneError (List Str)
visit_all visit [] kept = ok kept
visit_all visit (id ∷ ids) kept = visit id kept >>= λ more. visit_all visit ids more

-- `visit`, on the ids in the map `keep`.
pub visit : ℕ → List Step → Str → List Str → Result PruneError (List Str)
unfolding visit_all step_of contains all_ids
visit zero steps id kept = err out_of_fuel
visit (suc fuel) steps id kept = if contains kept id then ok kept else elim (step_of steps id) [
  | none ↦ err (dangling_requisite id)
  | some step ↦ visit_all (visit fuel steps) (all_ids step.requisites) (id ∷ kept)
]

-- `PruneToTarget`
unfoldable pub prune_to_target : ℕ → List Step → Str → Result PruneError (List Step)
unfolding visit keep contains step_of
prune_to_target fuel steps target = elim (step_of steps target) [
  | none ↦ err (target_step_not_found target)
  | some step ↦ visit fuel steps target [] >>= λ kept. ok (keep (λ s. contains kept s.id) steps)
]
