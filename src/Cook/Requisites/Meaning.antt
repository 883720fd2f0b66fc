-- ===== src/Cook/Requisites/Meaning.antt =====
-- When the requisites of a step are met, and when they cannot be met any more.
use mathlib.Core.Path.{◌≡◌, refl, ap, subst}
use mathlib.Core.Logic.{◌⊎◌, inl, inr, ◌↔◌, ◌≢◌}
use mathlib.Core.Bool.{Bool, true, false}
use mathlib.Core.List.{List, [], ◌∷◌, Memᴰ}
use native.Mathlib.Omega.{arith}
use grlx.Common.{Str, Result, ok, err, All, ok-ne-err, All-mem}
use grlx.Cook.Steps.{
  CompletionStatus, completed, failed, skipped, StepCompletion, ReqType, on_changes, on_fail,
  require, on_changes_any, on_fail_any, require_any, unknown, Requisite, Step,
}
use grlx.Cook.Requisites.{
  Error, requisite_not_met, Completions, entry, Verdict, holds, pending, impossible, judge_changes,
  judge_fail, judge_require, all_hold, any_holds, any_result, check, check_all, requisites_are_met,
}

abbrev pub Any {ℓ} : {A : Type ℓ} → (A → Type 0) → List A → Type 0
Any P [] = ⊥
Any P (x ∷ xs) = P x ⊎ Any P xs

-- What a condition asks of a step: that it ended with changes, that it failed, that it completed.
abbrev pub EndedWith : Bool → StepCompletion → Type 0
EndedWith changes c =
    ((c.completion_status ≡ completed) ⊎ (c.completion_status ≡ failed))
    × (c.changes_made ≡ changes)

abbrev pub HasStatus : CompletionStatus → StepCompletion → Type 0
HasStatus status c = c.completion_status ≡ status

-- What the conditions mean: that a requisite is met, and that it cannot be met any more.
unfoldable pub IsMet : Completions → ReqType → List Str → Type 0
unfolding entry
IsMet m on_changes ids = All (λ id. EndedWith true (entry m id)) ids
IsMet m on_fail ids = All (λ id. HasStatus failed (entry m id)) ids
IsMet m require ids = All (λ id. HasStatus completed (entry m id)) ids
IsMet m on_changes_any ids = Any (λ id. EndedWith true (entry m id)) ids
IsMet m on_fail_any ids = Any (λ id. HasStatus failed (entry m id)) ids
IsMet m require_any ids = Any (λ id. HasStatus completed (entry m id)) ids
IsMet m (unknown text) ids = ⊥

unfoldable pub IsImpossible : Completions → ReqType → List Str → Type 0
unfolding entry
IsImpossible m on_changes ids = Any (λ id. EndedWith false (entry m id)) ids
IsImpossible m on_fail ids = Any (λ id. HasStatus completed (entry m id)) ids
IsImpossible m require ids = Any (λ id. HasStatus failed (entry m id)) ids
IsImpossible m on_changes_any ids = All (λ id. EndedWith false (entry m id)) ids
IsImpossible m on_fail_any ids = All (λ id. HasStatus completed (entry m id)) ids
IsImpossible m require_any ids = All (λ id. HasStatus failed (entry m id)) ids
IsImpossible m (unknown text) ids = Unit

-- A judge decides two predicates on a step.
abbrev Judges :
    (StepCompletion → Verdict) → (StepCompletion → Type 0) → (StepCompletion → Type 0) → Type 0
Judges judge P Q = (c : StepCompletion) → ((judge c ≡ holds) ↔ P c) × ((judge c ≡ impossible) ↔ Q c)

judge_changes-Judges : Judges judge_changes (EndedWith true) (EndedWith false)
unfolding judge_changes
judge_changes-Judges c = ground arith

judge_fail-Judges : Judges judge_fail (HasStatus failed) (HasStatus completed)
unfolding judge_fail
judge_fail-Judges c = ground arith

judge_require-Judges : Judges judge_require (HasStatus completed) (HasStatus failed)
unfolding judge_require
judge_require-Judges c = ground arith

Verdict-cases : (v : Verdict) → (v ≡ holds) ⊎ (v ≡ pending) ⊎ (v ≡ impossible)
Verdict-cases holds = inl refl
Verdict-cases pending = inr (inl refl)
Verdict-cases impossible = inr (inr refl)

Result-cases :
    (v : Result Error Bool) → (v ≡ ok true) ⊎ (v ≡ ok false) ⊎ (v ≡ err requisite_not_met)
Result-cases (ok true) = inl refl
Result-cases (ok false) = inr (inl refl)
Result-cases (err requisite_not_met) = inr (inr refl)

ok_inj : {a b : Bool} → ◌≡◌ {A = Result Error Bool} (ok a) (ok b) → a ≡ b
ok_inj e = cc

-- A check that starts with `unmet`: it fails exactly when `Q`, and leaves nothing unmet exactly
-- when nothing was and `P`.
abbrev Decides : (Bool → Result Error Bool) → Type 0 → Type 0 → Type 0
Decides run P Q =
    (unmet : Bool)
    → ((run unmet ≡ ok false) ↔ ((unmet ≡ false) × P)) × ((run unmet ≡ err requisite_not_met) ↔ Q)

module _ (judge : StepCompletion → Verdict) (P Q : StepCompletion → Type 0)
    (judges : Judges judge P Q) (m : Completions) where
  all_hold-Decides :
      (ids : List Str)
      → Decides
          (all_hold judge m ids)
          (All (λ id. P (entry m id)) ids)
          (Any (λ id. Q (entry m id)) ids)
  unfolding all_hold
  all_hold-Decides [] unmet = (
    (λ e. (ok_inj e, tt), λ (e, _). ap ok e),
    (λ e. absurd (ok-ne-err unmet requisite_not_met e), λ b. absurd b),
  )
  all_hold-Decides (id ∷ ids) unmet =
      let ((h, h'), (i, i')) = judges (entry m id) in
      let ((a, a'), (b, b')) = all_hold-Decides ids unmet in
      let ((c, c'), (d, d')) = all_hold-Decides ids true in
      elim (Verdict-cases (judge (entry m id))) [
        | inl q ↦ ground arith
        | inr (inl q) ↦ ground arith
        | inr (inr q) ↦ ground arith
      ]

  any_holds_iff :
      (ids : List Str) (met pending_remaining : Bool)
      → (((any_holds judge m ids met pending_remaining).0 ≡ true)
          ↔ ((met ≡ true) ⊎ Any (λ id. P (entry m id)) ids))
        × (((any_holds judge m ids met pending_remaining).0 ≡ false)
              × ((any_holds judge m ids met pending_remaining).1 ≡ false)
            ↔ ((met ≡ false) × (pending_remaining ≡ false) × All (λ id. Q (entry m id)) ids))
  unfolding any_holds
  any_holds_iff [] met pending_remaining = ground arith
  any_holds_iff (id ∷ ids) met pending_remaining =
      let ((h, h'), (i, i')) = judges (entry m id) in
      let ((a, a'), (b, b')) = any_holds_iff ids true pending_remaining in
      let ((c, c'), (d, d')) = any_holds_iff ids met true in
      let ((e, e'), (f, f')) = any_holds_iff ids met pending_remaining in
      elim (Verdict-cases (judge (entry m id))) [
        | inl q ↦ ground arith
        | inr (inl q) ↦ ground arith
        | inr (inr q) ↦ ground arith
      ]

  any_result-Decides :
      (ids : List Str)
      → Decides
          (any_result (any_holds judge m ids false false))
          (Any (λ id. P (entry m id)) ids)
          (All (λ id. Q (entry m id)) ids)
  unfolding any_result
  any_result-Decides ids unmet =
      let ((a, a'), (b, b')) = any_holds_iff ids false false in ground arith

check-Decides :
    (m : Completions) (condition : ReqType) (ids : List Str)
    → Decides (check m condition ids) (IsMet m condition ids) (IsImpossible m condition ids)
unfolding check IsMet IsImpossible
check-Decides m on_changes ids = all_hold-Decides _ _ _ judge_changes-Judges m ids
check-Decides m on_fail ids = all_hold-Decides _ _ _ judge_fail-Judges m ids
check-Decides m require ids = all_hold-Decides _ _ _ judge_require-Judges m ids
check-Decides m on_changes_any ids = any_result-Decides _ _ _ judge_changes-Judges m ids
check-Decides m on_fail_any ids = any_result-Decides _ _ _ judge_fail-Judges m ids
check-Decides m require_any ids = any_result-Decides _ _ _ judge_require-Judges m ids
check-Decides m (unknown text) ids = λ unmet. ground arith

check_all_iff :
    (m : Completions) (rs : List Requisite) (unmet : Bool)
    → ((check_all m rs unmet ≡ ok true)
        ↔ ((unmet ≡ false) × All (λ r. IsMet m r.condition r.step_ids) rs))
      × ((check_all m rs unmet ≡ err requisite_not_met)
          ↔ Any (λ r. IsImpossible m r.condition r.step_ids) rs)
unfolding check_all
check_all_iff m [] unmet = ground arith
check_all_iff m (r ∷ rs) unmet =
    let ((a, a'), (b, b')) = check-Decides m r.condition r.step_ids unmet in
    let ((c, c'), (d, d')) = check_all_iff m rs false in
    let ((e, e'), (f, f')) = check_all_iff m rs true in
    elim (Result-cases (check m r.condition r.step_ids unmet)) [
      | inl q ↦ ground arith
      | inr (inl q) ↦ ground arith
      | inr (inr q) ↦ ground arith
    ]

-- A step may start exactly when each of its requisites is met by what is recorded of the steps it
-- names, and it is given up exactly when one of them cannot be met any more.
pub requisites_are_met_iff :
    (step : Step) (m : Completions)
    → ((requisites_are_met step m ≡ ok true)
        ↔ All (λ r. IsMet m r.condition r.step_ids) step.requisites)
      × ((requisites_are_met step m ≡ err requisite_not_met)
          ↔ Any (λ r. IsImpossible m r.condition r.step_ids) step.requisites)
unfolding requisites_are_met
requisites_are_met_iff step m =
    let ((a, a'), (b, b')) = check_all_iff m step.requisites false in
    ((λ e. (a e).1, λ h. a' (refl, h)), (b, b'))

-- A step with a `require` on a step that was skipped does not start.
requisites_are_met-skipped :
    (step : Step) (m : Completions) (r : Requisite) (id : Str)
    → Memᴰ r step.requisites
    → r.condition ≡ require
    → Memᴰ id r.step_ids
    → (entry m id).completion_status ≡ skipped
    → requisites_are_met step m ≢ ok true
unfolding IsMet
requisites_are_met-skipped step m r id mem e mem' s h =
    let met =
      All-mem (λ r. IsMet m r.condition r.step_ids) r step.requisites
        ((requisites_are_met_iff step m).0.0 h) mem in
    let each = subst (λ c. IsMet m c r.step_ids) e met in
    let done = All-mem (λ id. HasStatus completed (entry m id)) id r.step_ids each mem' in cc
