-- ===== src/Cook/Steps.antt =====
-- The types of internal/cook/cooktypes.go that the scheduler reads.
use mathlib.Core.Bool.{Bool}
use mathlib.Core.List.{List, [], ◌∷◌, ◌++◌}
use grlx.Common.{Str}

-- `CompletionStatus`, the first constructor is the zero value.
pub data CompletionStatus : Type 0 where
  not_started in_progress completed failed skipped : CompletionStatus

unfoldable pub dec_status : Discrete CompletionStatus
dec_status = hlevel

-- `StepCompletion`, without its notes, its times and the text of its error.
pub record StepCompletion : Type 0 where
  pub id : Str
  pub completion_status : CompletionStatus
  pub changes_made : Bool

-- The conditions that the scheduler knows, and any other text.
pub data ReqType : Type 0 where
  on_changes on_fail require on_changes_any on_fail_any require_any : ReqType
  unknown : Str → ReqType

-- `Requisite`, whose field `Steps` repeats the steps of its ids as pointers.
pub record Requisite : Type 0 where
  pub condition : ReqType
  pub step_ids : List Str

-- The fields of `Step` that the order of the steps depends on.
pub record Step : Type 0 where
  pub id : Str
  pub requisites : List Requisite
  pub is_requisite : Bool

-- `AllIDs`
unfoldable pub all_ids : List Requisite → List Str
all_ids [] = []
all_ids (r ∷ rs) = r.step_ids ++ all_ids rs
