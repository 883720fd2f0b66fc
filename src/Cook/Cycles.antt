-- ===== src/Cook/Cycles.antt =====
-- internal/cook/rootball.go: the search of a recipe for a cycle of requisites, and `ValidateTrees`,
-- which asks for it.
pub mod Paths
pub mod Found
pub mod Ending
pub mod Search
pub mod Verdict
pub mod Validation
use Prim.Native.Nat.{ℕ, zero, suc}
use mathlib.Core.Bool.{Bool, true, false, not}
use mathlib.Core.Option.{none, some}
use mathlib.Core.List.{List, [], ◌∷◌, ◌++◌}
use grlx.Common.{Str, dec_str, ◌==◌, contains, keep, Result, ok, err, ◌>>=◌, if◌then◌else◌}
use grlx.Cook.Steps.{Step, all_ids}
use grlx.Cook.Run.{step_of}
use grlx.Cook.Trees.{no_duplicate_ids, all_requisites_defined, mark_requisites, find_roots}

-- How a search stops without an answer: its fuel is used up, or it reads a field of the nil step
-- that a map gives for an unknown id.
pub data Stop : Type 0 where
  out_of_fuel nil_step : Stop

-- Whether there is a cycle, and the ids along it.
abbrev pub Answer : Type 0
Answer = Bool × List Str

-- The loop of `findCycle` over the requisites of a step.
pub follow : (Str → List Str → Result Stop Answer) → Str → List Str → List Str → Result Stop Answer
follow find top [] chain = ok (false, [])
follow find top (w ∷ ws) chain =
    if w == top
    then ok (true, chain ++ w ∷ [])
    else find w chain >>= λ found. if found.0 then ok (true, found.1) else follow find top ws chain

abbrev pub current_or_top : Str → Str → Str
current_or_top top current = if current == [] then top else current

-- `findCycle`
unfoldable pub find_cycle : ℕ → List Step → Str → Str → List Str → Result Stop Answer
unfolding follow step_of all_ids
find_cycle zero steps top current chain = err out_of_fuel
find_cycle (suc fuel) steps top current chain =
    if current == top
    then ok (true, chain ++ current ∷ [])
    else elim (step_of steps (current_or_top top current)) [
      | none ↦ err nil_step
      | some step ↦
          follow (find_cycle fuel steps top) top (all_ids step.requisites)
            (chain ++ current_or_top top current ∷ [])
    ]

-- `isVisited` and `isValidated`
pub record Marks : Type 0 where
  pub visited : List Str
  pub validated : List Str

-- The loop of `dfs` over the requisites of a step.
pub descend :
    (Str → Marks → Result Stop (Answer × Marks)) → List Str → Marks → Result Stop (Answer × Marks)
descend search [] marks = ok ((false, []), marks)
descend search (id ∷ ids) marks =
    search id marks >>= λ r. if r.0.0 then ok ((true, r.0.1), r.1) else descend search ids r.1

-- The end of `dfs`.
pub leave : Str → Answer × Marks → Result Stop (Answer × Marks)
unfolding keep
leave current (answer, marks) =
    if answer.0
    then ok ((true, answer.1), marks)
    else ok (
      (false, []),
      record {
        visited = keep (λ v. not (v == current)) marks.visited;
        validated = current ∷ marks.validated;
      },
    )

-- `dfs`
unfoldable pub dfs : ℕ → List Step → Str → Marks → Result Stop (Answer × Marks)
unfolding find_cycle descend leave step_of contains all_ids
dfs zero steps current marks = err out_of_fuel
dfs (suc fuel) steps current marks =
    if contains marks.visited current
    then (find_cycle fuel steps current [] [] >>= λ answer. ok (answer, marks))
    else elim (step_of steps current) [
      | none ↦ err nil_step
      | some step ↦
          descend (dfs fuel steps) (all_ids step.requisites)
            (record marks { visited = current ∷ marks.visited })
          >>= leave current
    ]

-- The loop of `HasCycle` over the steps.
pub scan : ℕ → List Step → List Step → Marks → Result Stop Answer
unfolding dfs contains
scan fuel all [] marks = ok (false, [])
scan fuel all (step ∷ steps) marks =
    if contains marks.validated step.id
    then scan fuel all steps marks
    else dfs fuel all step.id marks >>= λ r.
        if r.0.0 then ok (true, r.0.1) else scan fuel all steps r.1

-- `HasCycle`
unfoldable pub has_cycle : ℕ → List Step → Result Stop Answer
unfolding scan
has_cycle fuel steps = scan fuel steps steps (record { visited = []; validated = [] })

-- The errors of `ValidateTrees`, with the ids that its messages name.
pub data Invalid : Type 0 where
  not_unique not_defined dependency_cycle_found : List Str → Invalid

-- `ValidateTrees`
unfoldable pub validate_trees : ℕ → List Step → Result Stop (Result Invalid (List Step))
unfolding no_duplicate_ids all_requisites_defined has_cycle mark_requisites find_roots
validate_trees fuel steps =
    if not (no_duplicate_ids steps).0
    then ok (err (not_unique (no_duplicate_ids steps).1))
    else if not (all_requisites_defined steps).0
    then ok (err (not_defined (all_requisites_defined steps).1))
    else has_cycle fuel steps >>= λ found.
        if found.0
        then ok (err (dependency_cycle_found found.1))
        else ok (ok (find_roots (mark_requisites steps)))
