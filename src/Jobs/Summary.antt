-- ===== src/Jobs/Summary.antt =====
-- internal/jobs/store.go: the aggregate status of a job from the log of its steps.
pub mod Status
pub mod Counts
use Prim.Native.Nat.{ℕ, suc, ◌+◌}
use mathlib.Core.Bool.{Bool, true, false, ◌&&◌, ◌||◌, not}
use mathlib.Core.List.{List, [], ◌∷◌, ◌++◌, map}
use grlx.Common.{Str, str, dec_str, ◌==◌, Result, ok, err, if◌then◌else◌, length, test}
use grlx.Cook.Steps.{
  Step, StepCompletion, CompletionStatus, dec_status, not_started, in_progress, completed, failed,
  skipped,
}

-- `JobStatus`
pub data JobStatus : Type 0 where
  job_pending job_running job_succeeded job_failed job_partial : JobStatus

-- `String`; the value is always one of the constants.
unfoldable pub to_string : JobStatus → Str
to_string job_pending = str "pending"
to_string job_running = str "running"
to_string job_succeeded = str "succeeded"
to_string job_failed = str "failed"
to_string job_partial = str "partial"

-- `UnmarshalJSON` on the text, with the text of an unknown status as its error.
unfoldable pub of_string : Str → Result Str JobStatus
unfolding dec_str
of_string s =
    if s == str "pending"
    then ok job_pending
    else if s == str "running"
    then ok job_running
    else if s == str "succeeded"
    then ok job_succeeded
    else if s == str "failed"
    then ok job_failed
    else if s == str "partial"
    then ok job_partial
    else err s

-- The flags of the loop of `determineJobStatus`.
pub record Flags : Type 0 where
  pub has_in_progress : Bool
  pub has_failed : Bool
  pub has_not_started : Bool
  pub has_completed : Bool

pub flag : Flags → CompletionStatus → Flags
flag f not_started = record f { has_not_started = true }
flag f in_progress = record f { has_in_progress = true }
flag f completed = record f { has_completed = true }
flag f skipped = record f { has_completed = true }
flag f failed = record f { has_failed = true }

pub flags_of : Flags → List StepCompletion → Flags
unfolding flag
flags_of f [] = f
flags_of f (step ∷ steps) = flags_of (flag f step.completion_status) steps

-- `determineJobStatus`
unfoldable pub determine_job_status : List StepCompletion → JobStatus
unfolding flags_of
determine_job_status [] = job_pending
determine_job_status (step ∷ steps) =
    let f : Flags =
      flags_of
        (record {
          has_in_progress = false;
          has_failed = false;
          has_not_started = false;
          has_completed = false;
        })
        (step ∷ steps) in
    if f.has_in_progress
    then job_running
    else if f.has_failed
    then job_failed
    else if f.has_not_started && f.has_completed
    then job_partial
    else if f.has_not_started
    then job_pending
    else job_succeeded

-- The fields of `JobSummary` that `buildSummary` computes, less the times.
pub record JobSummary : Type 0 where
  pub status : JobStatus
  pub steps : List StepCompletion
  pub succeeded : ℕ
  pub failures : ℕ
  pub skips : ℕ
  pub total : ℕ

pub tally : JobSummary → CompletionStatus → JobSummary
tally s completed = record s { succeeded = suc s.succeeded }
tally s failed = record s { failures = suc s.failures }
tally s skipped = record s { skips = suc s.skips }
tally s not_started = s
tally s in_progress = s

pub tally_all : JobSummary → List StepCompletion → JobSummary
unfolding tally
tally_all s [] = s
tally_all s (step ∷ steps) = tally_all (tally s step.completion_status) steps

-- `buildSummary`
unfoldable pub build_summary : List StepCompletion → JobSummary
unfolding tally_all determine_job_status
build_summary steps =
    let counted : JobSummary =
      tally_all
        (record {
          status = job_pending;
          steps = steps;
          succeeded = 0;
          failures = 0;
          skips = 0;
          total = length steps;
        })
        steps in
    record counted { status = determine_job_status steps }

-- The lines that `logJobCreation` writes to `created.jsonl`.
unfoldable pub placeholders : List Step → List StepCompletion
placeholders =
    map (λ step. record { id = step.id; completion_status = not_started; changes_made = false })

-- The steps of `loadJob`: the lines of `created.jsonl`, then those of the events in the order of
-- their keys.
unfoldable pub load_job : List Step → List StepCompletion → JobSummary
unfolding build_summary placeholders
load_job created events = build_summary (placeholders created ++ events)
