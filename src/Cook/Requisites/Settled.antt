-- ===== src/Cook/Requisites/Settled.antt =====
-- `RequisitesAreMet` of internal/cook/sproutcook.go, on steps that completed or failed.
use mathlib.Core.Path.{◌≡◌, refl, subst}
use mathlib.Core.Logic.{◌⊎◌, ◌≢◌}
use mathlib.Core.Bool.{Bool, true, false}
use mathlib.Core.List.{List, [], ◌∷◌}
use native.Mathlib.Omega.{arith}
use grlx.Common.{Str, contains, Result, ok, err, contains-append}
use grlx.Cook.Steps.{
  completed, failed, StepCompletion, ReqType, on_changes, on_fail, require, on_changes_any,
  on_fail_any, require_any, unknown, Requisite, Step, all_ids,
}
use grlx.Cook.Requisites.{
  Completions, Error, entry, Verdict, pending, judge_changes, judge_fail, judge_require, all_hold,
  any_holds, any_result, check, check_all, requisites_are_met,
}

-- The step completed or failed.
abbrev pub IsFinal : StepCompletion → Type 0
IsFinal c = (c.completion_status ≡ completed) ⊎ (c.completion_status ≡ failed)

abbrev AreFinal : Completions → List Str → Type 0
AreFinal m ids = (id : Str) → contains ids id ≡ true → IsFinal (entry m id)

-- A condition that is decided by such a step.
abbrev Settles : (StepCompletion → Verdict) → Type 0
Settles judge = (c : StepCompletion) → IsFinal c → judge c ≢ pending

judge_changes-Settles : Settles judge_changes
unfolding judge_changes
judge_changes-Settles c f = ground arith

judge_fail-Settles : Settles judge_fail
unfolding judge_fail
judge_fail-Settles c f = ground arith

judge_require-Settles : Settles judge_require
unfolding judge_require
judge_require-Settles c f = ground arith

tail-AreFinal : (m : Completions) (x : Str) (ids : List Str) → AreFinal m (x ∷ ids) → AreFinal m ids
unfolding contains
tail-AreFinal m x ids f id h = f id (ground arith)

head-IsFinal :
    (m : Completions) (x : Str) (ids : List Str) → AreFinal m (x ∷ ids) → IsFinal (entry m x)
unfolding contains
head-IsFinal m x ids f = f x (ground arith)

module _ (judge : StepCompletion → Verdict) (settles : Settles judge) (m : Completions) where
  all_hold-settled :
      (ids : List Str) (unmet b : Bool)
      → AreFinal m ids
      → all_hold judge m ids unmet ≡ ok b
      → b ≡ unmet
  unfolding all_hold
  all_hold-settled [] unmet b f h = ground arith
  all_hold-settled (id ∷ ids) unmet b f h =
      let decided = settles (entry m id) (head-IsFinal m id ids f) in
      ground (arith, all_hold-settled ids unmet b (tail-AreFinal m id ids f))

  any_holds-settled :
      (ids : List Str) (met : Bool) → AreFinal m ids → (any_holds judge m ids met false).1 ≡ false
  unfolding any_holds
  any_holds-settled [] met f = refl
  any_holds-settled (id ∷ ids) met f =
      let decided = settles (entry m id) (head-IsFinal m id ids f) in
      ground (
        arith,
        any_holds-settled ids met (tail-AreFinal m id ids f),
        any_holds-settled ids true (tail-AreFinal m id ids f),
      )

any_result-settled :
    (p : Bool × Bool) (unmet b : Bool) → p.1 ≡ false → any_result p unmet ≡ ok b → b ≡ unmet
unfolding any_result
any_result-settled (met, pending_remaining) unmet b e h = ground arith

check-settled :
    (m : Completions) (condition : ReqType) (ids : List Str) (unmet b : Bool)
    → AreFinal m ids
    → check m condition ids unmet ≡ ok b
    → b ≡ unmet
unfolding check
check-settled m on_changes ids unmet b f h =
    all_hold-settled judge_changes judge_changes-Settles m ids unmet b f h
check-settled m on_fail ids unmet b f h =
    all_hold-settled judge_fail judge_fail-Settles m ids unmet b f h
check-settled m require ids unmet b f h =
    all_hold-settled judge_require judge_require-Settles m ids unmet b f h
check-settled m on_changes_any ids unmet b f h =
    any_result-settled (any_holds judge_changes m ids false false) unmet b
      (any_holds-settled judge_changes judge_changes-Settles m ids false f) h
check-settled m on_fail_any ids unmet b f h =
    any_result-settled (any_holds judge_fail m ids false false) unmet b
      (any_holds-settled judge_fail judge_fail-Settles m ids false f) h
check-settled m require_any ids unmet b f h =
    any_result-settled (any_holds judge_require m ids false false) unmet b
      (any_holds-settled judge_require judge_require-Settles m ids false f) h
check-settled m (unknown text) ids unmet b f h = absurd (cc)

check_all-settled :
    (m : Completions) (rs : List Requisite)
    → AreFinal m (all_ids rs)
    → check_all m rs false ≢ ok false
unfolding check_all all_ids
check_all-settled m [] f h = cc
check_all-settled m (r ∷ rs) f h =
    go (λ l. check_all-settled m rs l) (check m r.condition r.step_ids false) refl h
  where
    here : AreFinal m r.step_ids
    here id c = f id (ground (arith, contains-append r.step_ids (all_ids rs) id))

    later : AreFinal m (all_ids rs)
    later id c = f id (ground (arith, contains-append r.step_ids (all_ids rs) id))

    go :
        (AreFinal m (all_ids rs) → check_all m rs false ≢ ok false)
        → (x : Result Error Bool) → check m r.condition r.step_ids false ≡ x
        → (elim x [ ok unmet ↦ check_all m rs unmet | err e ↦ err e ]) ≡ ok false
        → ⊥
    go again (ok b) e k = again later (
        subst (λ u. check_all m rs u ≡ ok false)
          (check-settled m r.condition r.step_ids false b here e) k)
    go again (err x) e k = cc

-- A step does not wait for steps that completed or failed.
pub requisites_are_met-settled :
    (step : Step) (m : Completions)
    → ((id : Str) → contains (all_ids step.requisites) id ≡ true → IsFinal (entry m id))
    → requisites_are_met step m ≢ ok false
unfolding requisites_are_met
requisites_are_met-settled step m f = check_all-settled m step.requisites f
