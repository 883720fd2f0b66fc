-- ===== src/Cook/Trees.antt =====
-- internal/cook/rootball.go: the tests on the steps of a recipe, and the steps that no other names.
-- internal/cook/summary.go: the counts of the steps of each sprout.
pub mod Checks
pub mod Summaries
use Prim.Native.Nat.{ℕ, suc, ◌+◌}
use mathlib.Core.Bool.{Bool, true, false, ◌&&◌, ◌||◌, not}
use mathlib.Core.Option.{Option, none, some}
use mathlib.Core.List.{List, [], ◌∷◌, ◌++◌, map}
use grlx.Common.{Str, dec_str, ◌==◌, contains, keep, if◌then◌else◌}
use grlx.Common.Dict.{lookup, insert}
use grlx.Cook.Steps.{
  CompletionStatus, not_started, in_progress, completed, failed, skipped, StepCompletion, Requisite,
  Step, all_ids,
}

-- The loop of `NoDuplicateIDs`, on the ids seen so far.
pub repeats : List Str → List Step → List Str
unfolding contains
repeats seen [] = []
repeats seen (step ∷ steps) =
    if not (contains seen step.id)
    then repeats (step.id ∷ seen) steps
    else step.id ∷ repeats seen steps

abbrev pub is_empty : List Str → Bool
is_empty [] = true
is_empty (x ∷ xs) = false

-- `NoDuplicateIDs`
unfoldable pub no_duplicate_ids : List Step → Bool × List Str
unfolding repeats
no_duplicate_ids steps = let duplicates = repeats [] steps in (is_empty duplicates, duplicates)

abbrev pub ids_of : List Step → List Str
ids_of = map Step.id

-- The two loops of `AllRequisitesDefined`.
pub unresolved_of : List Str → List Step → List Str
unfolding keep contains all_ids
unresolved_of defined [] = []
unresolved_of defined (step ∷ steps) =
    keep (λ dep. not (contains defined dep)) (all_ids step.requisites)
    ++ unresolved_of defined steps

-- `AllRequisitesDefined`
unfoldable pub all_requisites_defined : List Step → Bool × List Str
unfolding unresolved_of
all_requisites_defined steps =
    let unresolved = unresolved_of (ids_of steps) steps in (is_empty unresolved, unresolved)

-- The ids whose steps the last loop of `ValidateTrees` marks, on a recipe that passed the tests.
unfoldable pub requisite_ids : List Step → List Str
unfolding all_ids
requisite_ids [] = []
requisite_ids (step ∷ steps) = all_ids step.requisites ++ requisite_ids steps

unfoldable pub mark_requisites : List Step → List Step
unfolding requisite_ids contains
mark_requisites steps =
    let named = requisite_ids steps in
    map (λ step. if contains named step.id then record step { is_requisite = true } else step) steps

-- `FindRoots`
unfoldable pub find_roots : List Step → List Step
unfolding keep
find_roots = keep (λ step. not step.is_requisite)

-- `Summary`, whose list of errors has one for each failure.
pub record Summary : Type 0 where
  pub succeeded : ℕ
  pub failures : ℕ
  pub changes : ℕ

abbrev pub empty_summary : Summary
empty_summary = record { succeeded = 0; failures = 0; changes = 0 }

abbrev pub summary_at : Str → List (Str × Summary) → Summary
summary_at sprout m = elim (lookup sprout m) [ none ↦ empty_summary | some s ↦ s ]

unfoldable pub add_status : CompletionStatus → Summary → Summary
add_status completed s = record s { succeeded = suc s.succeeded }
add_status failed s = record s { failures = suc s.failures }
add_status skipped s = s
add_status not_started s = s
add_status in_progress s = s

-- The body of the loop of `SummarizeSteps`.
unfoldable pub add_step : StepCompletion → Summary → Summary
unfolding add_status
add_step c s =
    add_status c.completion_status
      (if c.changes_made then record s { changes = suc s.changes } else s)

-- `SummarizeSteps`, on the summaries so far.
unfoldable pub summarize_steps :
    List (Str × StepCompletion) → List (Str × Summary) → List (Str × Summary)
unfolding add_step lookup insert
summarize_steps [] m = m
summarize_steps ((sprout, c) ∷ steps) m =
    summarize_steps steps (insert sprout (add_step c (summary_at sprout m)) m)
