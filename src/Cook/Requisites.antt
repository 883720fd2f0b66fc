-- ===== src/Cook/Requisites.antt =====
-- `RequisitesAreMet` of internal/cook/sproutcook.go.
pub mod Meaning
pub mod Settled
use mathlib.Core.Bool.{Bool, true, false, ◌&&◌, ◌||◌, not}
use mathlib.Core.Option.{Option, none, some}
use mathlib.Core.List.{List, [], ◌∷◌}
use grlx.Common.{Str, Result, ok, err, if◌then◌else◌, test}
use grlx.Common.Dict.{lookup}
use grlx.Cook.Steps.{
  CompletionStatus, dec_status, not_started, completed, failed, StepCompletion, ReqType, on_changes,
  on_fail, require, on_changes_any, on_fail_any, require_any, unknown, Requisite, Step,
}

-- `ErrRequisiteNotMet`
pub data Error : Type 0 where
  requisite_not_met : Error

abbrev pub Completions : Type 0
Completions = List (Str × StepCompletion)

-- `completionMap[req]`, the zero value for an id that is not in the map.
unfoldable pub entry : Completions → Str → StepCompletion
unfolding lookup
entry m id = elim (lookup id m) [
  | none ↦ record { id = []; completion_status = not_started; changes_made = false }
  | some c ↦ c
]

abbrev pub status_is : StepCompletion → CompletionStatus → Bool
status_is c status = test (dec_status c.completion_status status)

-- What one required step says to a condition: it holds, it may still hold, it cannot hold.
pub data Verdict : Type 0 where
  holds pending impossible : Verdict

unfoldable pub judge_changes : StepCompletion → Verdict
unfolding dec_status
judge_changes c =
    if status_is c completed || status_is c failed
    then if not c.changes_made then impossible else holds
    else pending

unfoldable pub judge_fail : StepCompletion → Verdict
unfolding dec_status
judge_fail c =
    if status_is c completed
    then impossible
    else if not (status_is c failed)
    then pending
    else holds

unfoldable pub judge_require : StepCompletion → Verdict
unfolding dec_status
judge_require c =
    if status_is c failed
    then impossible
    else if not (status_is c completed)
    then pending
    else holds

-- The loop of a condition on all of the steps, on whether something is unmet so far.
pub all_hold : (StepCompletion → Verdict) → Completions → List Str → Bool → Result Error Bool
unfolding entry
all_hold judge m [] unmet = ok unmet
all_hold judge m (id ∷ ids) unmet =
    let at_holds = all_hold judge m ids unmet in
    let at_pending = all_hold judge m ids true in
    elim (judge (entry m id)) [
      | holds ↦ at_holds
      | pending ↦ at_pending
      | impossible ↦ err requisite_not_met
    ]

-- The loop of a condition on any of the steps, on its flags `met` and `pendingRemaining`.
pub any_holds : (StepCompletion → Verdict) → Completions → List Str → Bool → Bool → Bool × Bool
unfolding entry
any_holds judge m [] met pending_remaining = (met, pending_remaining)
any_holds judge m (id ∷ ids) met pending_remaining = elim (judge (entry m id)) [
  | holds ↦ any_holds judge m ids true pending_remaining
  | pending ↦ any_holds judge m ids met true
  | impossible ↦ any_holds judge m ids met pending_remaining
]

pub any_result : Bool × Bool → Bool → Result Error Bool
any_result (met, pending_remaining) unmet =
    if not pending_remaining && not met
    then err requisite_not_met
    else ok (if not met then true else unmet)

-- The switch on the condition of a requisite.
pub check : Completions → ReqType → List Str → Bool → Result Error Bool
unfolding all_hold any_holds any_result judge_changes judge_fail judge_require
check m on_changes ids unmet = all_hold judge_changes m ids unmet
check m on_fail ids unmet = all_hold judge_fail m ids unmet
check m require ids unmet = all_hold judge_require m ids unmet
check m on_changes_any ids unmet = any_result (any_holds judge_changes m ids false false) unmet
check m on_fail_any ids unmet = any_result (any_holds judge_fail m ids false false) unmet
check m require_any ids unmet = any_result (any_holds judge_require m ids false false) unmet
check m (unknown text) ids unmet = err requisite_not_met

pub check_all : Completions → List Requisite → Bool → Result Error Bool
unfolding check
check_all m [] unmet = ok (not unmet)
check_all m (r ∷ rs) unmet = elim (check m r.condition r.step_ids unmet) [
  | ok unmet ↦ check_all m rs unmet
  | err e ↦ err e
]

-- `RequisitesAreMet`
unfoldable pub requisites_are_met : Step → Completions → Result Error Bool
unfolding check_all
requisites_are_met step m = check_all m step.requisites false
