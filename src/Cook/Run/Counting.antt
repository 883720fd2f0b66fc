-- ===== src/Cook/Run/Counting.antt =====
-- The steps of a recipe that were not started, as its completion map records them.
use Prim.Native.Nat.{ℕ, ◌+◌}
use mathlib.Core.Path.{◌≡◌, refl, ◌∙◌, subst}
use mathlib.Core.Logic.{inl, inr}
use mathlib.Core.Bool.{Bool, true, false, ◌||◌}
use mathlib.Core.Option.{none, some}
use mathlib.Core.List.{List, [], ◌∷◌}
use native.Mathlib.Omega.{arith}
use grlx.Common.{Str, dec_str, ◌==◌, if◌then◌else◌, length, Option-cases}
use grlx.Common.Dict.{lookup, insert, lookup-insert}
use grlx.Cook.Steps.{dec_status, not_started, StepCompletion, Step}
use grlx.Cook.Requisites.{Completions, status_is}
use grlx.Cook.Run.{completion, fresh_completions}

unfoldable pub is_waiting : StepCompletion → Bool
unfolding dec_status
is_waiting c = status_is c not_started

abbrev pub one_if : Bool → ℕ
one_if b = if b then 1 else 0

-- How many entries wait, and whether the entry of an id does.
unfoldable pub waiting : Completions → ℕ
unfolding is_waiting
waiting [] = 0
waiting ((id, c) ∷ m) = one_if (is_waiting c) + waiting m

unfoldable pub waits : Completions → Str → Bool
unfolding lookup is_waiting
waits m id = elim (lookup id m) [ none ↦ false | some c ↦ is_waiting c ]

pub waits-insert :
    (m : Completions) (id j : Str) (c : StepCompletion)
    → waits (insert id c m) j ≡ (if id == j then is_waiting c else waits m j)
unfolding waits
waits-insert m id j c = ground (arith, lookup-insert id j c m)

pub waiting-insert_found :
    (m : Completions) (id : Str) (c : StepCompletion) {old : StepCompletion}
    → lookup id m ≡ some old
    → waiting (insert id c m) + one_if (is_waiting old) ≡ waiting m + one_if (is_waiting c)
unfolding waiting insert lookup
waiting-insert_found [] id c found = cc
waiting-insert_found ((j, b) ∷ m) id c {old} found = elim (dec_str j id) [
  | yes e ↦ ground arith
  | no ne ↦
      (let rest : lookup id m ≡ some old = ground arith in
        ground (arith, waiting-insert_found m id c rest))
]

pub waiting-insert_absent :
    (m : Completions) (id : Str) (c : StepCompletion)
    → lookup id m ≡ none
    → waiting (insert id c m) ≡ waiting m + one_if (is_waiting c)
unfolding waiting insert lookup
waiting-insert_absent [] id c absent = ground arith
waiting-insert_absent ((j, b) ∷ m) id c absent = elim (dec_str j id) [
  | yes e ↦ ground arith
  | no ne ↦ ground (arith, waiting-insert_absent m id c)
]

-- Recording the end of a step that does not wait leaves the number of those that do.
pub waiting-insert_settled :
    (m : Completions) (id : Str) (c : StepCompletion)
    → waits m id ≡ false
    → is_waiting c ≡ false
    → waiting (insert id c m) ≡ waiting m
unfolding waits
waiting-insert_settled m id c settled done = elim (Option-cases (lookup id m)) [
  | inl absent ↦ ground (arith, waiting-insert_absent m id c)
  | inr (old, found) ↦ ground (arith, waiting-insert_found m id c found)
]

-- No two steps of a recipe have the same id, which `NoDuplicateIDs` tests.
unfoldable pub occurs : Str → List Step → Bool
unfolding dec_str
occurs id [] = false
occurs id (step ∷ steps) = step.id == id || occurs id steps

abbrev pub AreDistinct : List Step → Type 0
AreDistinct [] = Unit
AreDistinct (step ∷ steps) = (occurs step.id steps ≡ false) × AreDistinct steps

is_waiting-fresh : (id : Str) → is_waiting (completion id not_started) ≡ true
unfolding is_waiting
is_waiting-fresh id = refl

waiting-fresh :
    (steps : List Step) (m : Completions)
    → AreDistinct steps
    → ((id : Str) → occurs id steps ≡ true → lookup id m ≡ none)
    → waiting (fresh_completions steps m) ≡ waiting m + length steps
unfolding fresh_completions occurs
waiting-fresh [] m d fresh = ground arith
waiting-fresh (step ∷ steps) m (unused, d) fresh =
    waiting-fresh steps (insert step.id (completion step.id not_started) m) d (λ id o. kept id o)
    ∙ ground (arith, added, is_waiting-fresh step.id)
  where
    added :
        waiting (insert step.id (completion step.id not_started) m)
        ≡ waiting m + one_if (is_waiting (completion step.id not_started))
    added =
        waiting-insert_absent m step.id (completion step.id not_started)
          (fresh step.id (ground arith))

    kept :
        (id : Str)
        → occurs id steps ≡ true
        → lookup id (insert step.id (completion step.id not_started) m) ≡ none
    kept id o = elim (dec_str step.id id) [
      | yes e ↦ absurd (let u = subst (λ x. occurs x steps ≡ false) e unused in cc)
      | no ne ↦
          lookup-insert step.id id (completion step.id not_started) m
          ∙ ground (arith, fresh id (ground arith))
    ]

pub waiting-fresh_completions :
    (steps : List Step) → AreDistinct steps → waiting (fresh_completions steps []) ≡ length steps
unfolding waiting lookup
waiting-fresh_completions steps d = ground (arith, waiting-fresh steps [] d (λ id o. refl))

pub waits-fresh_completions :
    (steps : List Step) (m : Completions) (id : Str)
    → occurs id steps ≡ false
    → waits (fresh_completions steps m) id ≡ waits m id
unfolding fresh_completions occurs
waits-fresh_completions [] m id unused = refl
waits-fresh_completions (step ∷ steps) m id unused =
    waits-fresh_completions steps (insert step.id (completion step.id not_started) m) id
      (ground arith)
    ∙ waits-insert m step.id id (completion step.id not_started)
    ∙ ground arith
