-- ===== src/Examples/Recipes.antt =====
-- Recipes and their runs on small inputs.
use Prim.Native.Nat.{ℕ, suc, ◌+◌}
use mathlib.Core.Path.{◌≡◌, refl}
use mathlib.Core.Logic.{◌↔◌, ◌⊎◌}
use mathlib.Core.Bool.{true, false}
use mathlib.Core.List.{List, [], ◌∷◌}
use grlx.Common.{Str, str, contains, keep, All, Result, ok, err, length}
use grlx.Cook.Steps.{Step, Requisite, StepCompletion, require, completed, failed, skipped}
use grlx.Cook.Requisites.{Completions, requisite_not_met, requisites_are_met}
use grlx.Cook.Requisites.Meaning.{IsMet, IsImpossible, Any, requisites_are_met_iff}
use grlx.Cook.Run.{completion}
use grlx.Cook.Trees.{all_requisites_defined, ids_of, find_roots, mark_requisites}
use grlx.Cook.Cycles.{out_of_fuel, Invalid, has_cycle, validate_trees}
use grlx.Cook.Cycles.Paths.{IsClosed}
use grlx.Cook.Cycles.Search.{AreGrounded}
use grlx.Cook.Cycles.Validation.{IsSound, has_cycle-decides, validate_trees-accepts}
use grlx.Cook.Pruning.{target_step_not_found, dangling_requisite, prune_to_target}
use grlx.Cook.Pruning.Closure.{Leads}
use grlx.Cook.Pruning.Kept.{prune_to_target-effect}

-- `serve` requires `install`.
abbrev pub needs_install : Requisite
needs_install = record { condition = require; step_ids = str "install" ∷ [] }

abbrev pub install : Step
install = record { id = str "install"; requisites = []; is_requisite = false }

abbrev pub serve : Step
serve = record { id = str "serve"; requisites = needs_install ∷ []; is_requisite = false }

abbrev pub recipe : List Step
recipe = install ∷ serve ∷ []

abbrev skipped_install : Completions
skipped_install = (str "install", completion (str "install") skipped) ∷ []

requisites_are_met_iff_example :
    ((requisites_are_met serve skipped_install ≡ ok true)
      ↔ All (λ r. IsMet skipped_install r.condition r.step_ids) serve.requisites)
    × ((requisites_are_met serve skipped_install ≡ err requisite_not_met)
        ↔ Any (λ r. IsImpossible skipped_install r.condition r.step_ids) serve.requisites)
requisites_are_met_iff_example = requisites_are_met_iff serve skipped_install

-- The steps of two sprouts.
abbrev steps_of_two : List (Str × StepCompletion)
steps_of_two =
    (str "web", completion (str "install") completed)
    ∷ (str "db", completion (str "install") failed)
    ∷ (str "web", completion (str "serve") failed)
    ∷ []

has_cycle-decides_example :
    (n : ℕ) × ((k : ℕ)
      → ((chain : List Str) × (has_cycle (n + k) recipe ≡ ok (true, chain)) × IsClosed recipe chain)
        ⊎ ((has_cycle (n + k) recipe ≡ ok (false, [])) × AreGrounded recipe (ids_of recipe)))
unfolding all_requisites_defined contains
has_cycle-decides_example = has_cycle-decides recipe refl refl

validate_trees-accepts_example :
    (n : ℕ) × ((k : ℕ)
      → ((answer : Result Invalid (List Step)) × (validate_trees (n + k) recipe ≡ ok answer))
        × ((validate_trees (n + k) recipe ≡ ok (ok (find_roots (mark_requisites recipe))))
            ↔ IsSound recipe))
unfolding contains
validate_trees-accepts_example = validate_trees-accepts recipe refl

prune_to_target-effect_example :
    ((prune_to_target (suc (length recipe)) recipe install.id
        ≡ err (target_step_not_found install.id))
      × (contains (ids_of recipe) install.id ≡ false))
    ⊎ ((d : Str) × (prune_to_target (suc (length recipe)) recipe install.id
          ≡ err (dangling_requisite d))
        × Leads recipe d install.id
        × (contains (ids_of recipe) d ≡ false))
    ⊎ ((kept : List Str) × (prune_to_target (suc (length recipe)) recipe install.id
          ≡ ok (keep (λ s. contains kept s.id) recipe))
        × ((id : Str) → (contains kept id ≡ true) ↔ Leads recipe id install.id))
prune_to_target-effect_example = prune_to_target-effect recipe install.id

-- Two steps that require each other, and one with an empty id between a step and itself.
abbrev needs : Str → Requisite
needs id = record { condition = require; step_ids = id ∷ [] }

abbrev ring : List Step
ring =
    record { id = str "a"; requisites = needs (str "b") ∷ []; is_requisite = false }
    ∷ record { id = str "b"; requisites = needs (str "a") ∷ []; is_requisite = false }
    ∷ []

ring_cycle : has_cycle 9 ring ≡ ok (true, str "a" ∷ str "b" ∷ str "a" ∷ [])
unfolding has_cycle
ring_cycle = refl

abbrev unnamed : List Step
unnamed =
    record { id = str "a"; requisites = needs [] ∷ needs (str "a") ∷ []; is_requisite = false }
    ∷ record { id = []; requisites = []; is_requisite = false }
    ∷ []

unnamed_endless : has_cycle 60 unnamed ≡ err out_of_fuel
unfolding has_cycle
unnamed_endless = refl
