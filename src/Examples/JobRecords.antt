-- ===== src/Examples/JobRecords.antt =====
-- The records of jobs on small inputs.
use Prim.Native.Nat.{◌≤◌}
use mathlib.Core.Path.{◌≡◌, refl}
use mathlib.Core.Logic.{◌↔◌, inl, inr}
use mathlib.Core.Bool.{true, false}
use mathlib.Core.Option.{some}
use mathlib.Core.List.{List, [], ◌∷◌, ◌++◌, Permᴰ}
use grlx.Common.{str, dec_str, keep, length}
use grlx.Common.Table.Rows.{rows_table, no_rows}
use grlx.Cook.Steps.{Step, StepCompletion, completed}
use grlx.Jobs.StatusIndex.{
  JobStatusRow, JobKey, job_key, dec_job, JobEvent, no_event, Statement, upserted, refreshed,
  apply_all, job_succeeded,
}
use grlx.Jobs.StatusIndex.Counters.{counters_of, no_counters, count_some, events_of, status_of}
use grlx.Jobs.StatusIndex.Convergence.{apply_all-status}
use grlx.Jobs.StatusIndex.Order.{any, apply_all-perm, apply_all-succeeded}
use grlx.Jobs.Summary.{job_partial, load_job}
use grlx.Jobs.Summary.Status.{load_job-partial}

abbrev created : JobEvent
created = record no_event { steps_total = some 1 }

abbrev ended : JobEvent
ended = record no_event { step = true }

abbrev over : JobEvent
over = record no_event { finished = true }

abbrev key : JobKey
key = (str "acme", (str "web", str "7"))

abbrev other_key : JobKey
other_key = (str "acme", (str "db", str "8"))

-- The events of two jobs, of which one gets its status again at the end.
abbrev statements : List Statement
statements =
    upserted key over 1
    ∷ refreshed key 2
    ∷ upserted other_key created 3
    ∷ upserted key created 4
    ∷ upserted key ended 5
    ∷ []

apply_all-status_example :
    (row : JobStatusRow) × ((rows_table dec_job job_key).find
        (apply_all
          (rows_table dec_job job_key)
          (no_rows dec_job job_key)
          (statements ++ refreshed key 6 ∷ []))
        key
      ≡ some row)
    × (counters_of row ≡ count_some no_counters (over ∷ created ∷ ended ∷ []))
    × (row.status ≡ status_of (count_some no_counters (over ∷ created ∷ ended ∷ [])))
unfolding no_rows rows_table events_of dec_job dec_str
apply_all-status_example =
    apply_all-status (rows_table dec_job job_key) (no_rows dec_job job_key) statements key 6 over
      (created ∷ ended ∷ []) refl refl

-- The same events of the first job in another order.
abbrev reordered : List Statement
reordered = upserted key created 1 ∷ upserted key over 2 ∷ upserted key ended 3 ∷ []

apply_all-perm_example :
    (row row' : JobStatusRow) × ((rows_table dec_job job_key).find
        (apply_all
          (rows_table dec_job job_key)
          (no_rows dec_job job_key)
          (statements ++ refreshed key 6 ∷ []))
        key
      ≡ some row)
    × ((rows_table dec_job job_key).find
          (apply_all
            (rows_table dec_job job_key)
            (no_rows dec_job job_key)
            (reordered ++ refreshed key 9 ∷ []))
          key
        ≡ some row')
    × (row.status ≡ row'.status)
unfolding no_rows rows_table events_of dec_job dec_str
apply_all-perm_example =
    apply_all-perm (rows_table dec_job job_key) (no_rows dec_job job_key) (no_rows dec_job job_key)
      statements reordered key 6 9 1 over created (created ∷ ended ∷ []) (over ∷ ended ∷ []) refl
      refl refl refl (inl refl, (inr refl, (inl refl, tt))) (Permᴰ.swap refl refl)

apply_all-succeeded_example :
    (row : JobStatusRow) × ((rows_table dec_job job_key).find
        (apply_all
          (rows_table dec_job job_key)
          (no_rows dec_job job_key)
          (statements ++ refreshed key 6 ∷ []))
        key
      ≡ some row)
    × ((row.status ≡ job_succeeded) ↔ (
        (any JobEvent.timed_out (over ∷ created ∷ ended ∷ []) ≡ false)
        × (any JobEvent.finished (over ∷ created ∷ ended ∷ []) ≡ true)
        × (1 ≤ length (keep JobEvent.step (over ∷ created ∷ ended ∷ [])))
        × (any JobEvent.step_failed (over ∷ created ∷ ended ∷ []) ≡ false)))
unfolding no_rows rows_table events_of dec_job dec_str any
apply_all-succeeded_example =
    apply_all-succeeded (rows_table dec_job job_key) (no_rows dec_job job_key) statements key 6 1
      over (created ∷ ended ∷ []) refl refl (inl refl, (inr refl, (inl refl, tt))) refl

abbrev install : Step
install = record { id = str "install"; requisites = []; is_requisite = false }

abbrev installed : StepCompletion
installed = record { id = str "install"; completion_status = completed; changes_made = true }

load_job-partial_example : (load_job (install ∷ []) (installed ∷ [])).status ≡ job_partial
load_job-partial_example =
    load_job-partial (install ∷ []) (installed ∷ []) (λ e. cc) (λ e. cc) (inl refl, tt)
