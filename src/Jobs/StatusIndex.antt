-- ===== src/Jobs/StatusIndex.antt =====
-- internal/jobs/status_index.go: the table `job_status`, one row to a job of a sprout of a tenant.
-- Several replicas write it: each event of a job is an upsert, followed by a recomputation of the
-- status from the columns.
pub mod Counters
pub mod Convergence
pub mod Order
use Prim.Native.Nat.{ℕ, suc, ◌+◌}
use mathlib.Core.Bool.{Bool, true, false, ◌&&◌, ◌||◌, not}
use mathlib.Core.Option.{Option, none, some}
use mathlib.Core.List.{List, [], ◌∷◌, ◌++◌}
use grlx.Common.{Str, str, dec_str, ◌==◌, size, if◌then◌else◌, leb, test}
use grlx.Common.Table.{Table, upsert, update}
use grlx.Cook.Steps.{StepCompletion, dec_status, failed}

-- The constants `JobIndexStatus…`.
pub data IndexStatus : Type 0 where
  job_pending job_running job_succeeded job_failed : IndexStatus

-- `jobStatusRow`; times are counted from some start.
pub record JobStatusRow : Type 0 where
  pub tenant_id : Str
  pub sprout_id : Str
  pub jid : Str
  pub status : IndexStatus
  pub steps_total : Option ℕ
  pub steps_reported : ℕ
  pub step_failed : Bool
  pub started : Bool
  pub finished : Bool
  pub timed_out : Bool
  pub updated_at : ℕ

abbrev pub JobKey : Type 0
JobKey = Str × (Str × Str)

abbrev pub job_key : JobStatusRow → JobKey
job_key row = (row.tenant_id, (row.sprout_id, row.jid))

unfoldable pub dec_job : Discrete JobKey
unfolding dec_str
dec_job = hlevel dec_str

pub record JobEvent : Type 0 where
  pub steps_total : Option ℕ
  pub started : Bool
  pub step : Bool
  pub step_failed : Bool
  pub finished : Bool
  pub timed_out : Bool

-- The zero value `jobEvent{}`.
abbrev pub no_event : JobEvent
no_event = record {
  steps_total = none;
  started = false;
  step = false;
  step_failed = false;
  finished = false;
  timed_out = false;
}

-- `jobStatusExpr`
unfoldable pub status_expr : JobStatusRow → IndexStatus
status_expr row =
    let all_reported : Bool = elim row.steps_total [
      | none ↦ false
      | some total ↦ leb total row.steps_reported
    ] in
    if row.timed_out
    then job_failed
    else if row.finished && all_reported
    then if row.step_failed then job_failed else job_succeeded
    else if row.started || row.finished || leb 1 row.steps_reported
    then job_running
    else job_pending

-- `classifyJobEvent`
unfoldable pub classify_job_event : Str → StepCompletion → JobEvent
unfolding dec_str dec_status
classify_job_event jid step =
    if step.id == str "start-" ++ jid
    then record no_event { started = true }
    else if step.id == str "completed-" ++ jid
    then record no_event { finished = true }
    else if step.id == str "timeout-" ++ jid
    then record no_event { timed_out = true }
    else record no_event {
      step = true;
      step_failed = test (dec_status step.completion_status failed);
    }

abbrev pub max_index_tenant_id_len : ℕ
max_index_tenant_id_len = 191

abbrev pub max_index_sprout_id_len : ℕ
max_index_sprout_id_len = 253

abbrev pub max_index_jid_len : ℕ
max_index_jid_len = 64

-- The row of a first event.
unfoldable pub first_row : JobKey → JobEvent → ℕ → JobStatusRow
first_row (tenant_id, (sprout_id, jid)) ev now = record {
  tenant_id = tenant_id;
  sprout_id = sprout_id;
  jid = jid;
  status = job_pending;
  steps_total = ev.steps_total;
  steps_reported = if ev.step then 1 else 0;
  step_failed = ev.step_failed;
  started = ev.started;
  finished = ev.finished;
  timed_out = ev.timed_out;
  updated_at = now;
}

-- The assignments to the row of an earlier event.
unfoldable pub assign_event : JobEvent → ℕ → JobStatusRow → JobStatusRow
assign_event ev now old = record old {
  steps_total = elim ev.steps_total [ none ↦ old.steps_total | some n ↦ some n ];
  steps_reported = if ev.step then old.steps_reported + 1 else old.steps_reported;
  step_failed = if ev.step_failed then true else old.step_failed;
  started = if ev.started then true else old.started;
  finished = if ev.finished then true else old.finished;
  timed_out = if ev.timed_out then true else old.timed_out;
  updated_at = now;
}

pub data Statement : Type 0 where
  upserted : JobKey → JobEvent → ℕ → Statement
  refreshed : JobKey → ℕ → Statement

module _ (t : Table dec_job job_key) where
  open t use {State}

  unfoldable pub upsert_job_event : State → JobKey → JobEvent → ℕ → State
  unfolding upsert first_row assign_event
  upsert_job_event s k ev now = upsert t s (first_row k ev now) (assign_event ev now)

  unfoldable pub refresh_job_status : State → JobKey → ℕ → State
  unfolding update status_expr
  refresh_job_status s k now =
      update t s k (λ row. record row { status = status_expr row; updated_at = now })

  -- The test of the identifiers in `indexJobEvent`.
  unfoldable pub is_indexable : JobKey → Bool
  is_indexable (tenant_id, (sprout_id, jid)) = not (
      tenant_id == []
      || not (leb (size tenant_id) max_index_tenant_id_len)
      || sprout_id == []
      || not (leb (size sprout_id) max_index_sprout_id_len)
      || jid == []
      || not (leb (size jid) max_index_jid_len))

  -- `indexJobEvent`, with no other replica between its two statements and neither of them failing.
  unfoldable pub index_job_event : State → JobKey → JobEvent → ℕ → State
  unfolding is_indexable upsert_job_event refresh_job_status
  index_job_event s k ev now =
      if not (is_indexable k) then s else refresh_job_status (upsert_job_event s k ev now) k now

  -- The statements on the table, each atomic, in the order in which the database applies those of
  -- all replicas.
  unfoldable pub apply : State → Statement → State
  unfolding upsert_job_event refresh_job_status
  apply s (upserted k ev now) = upsert_job_event s k ev now
  apply s (refreshed k now) = refresh_job_status s k now

  unfoldable pub apply_all : State → List Statement → State
  unfolding apply
  apply_all s [] = s
  apply_all s (o ∷ os) = apply_all (apply s o) os
