-- ===== src/Jobs/Summary/Counts.antt =====
-- The counts of a job, and the texts of its status.
use Prim.Native.Nat.{ℕ, ◌+◌, ◌≤◌}
use mathlib.Core.Path.{◌≡◌, refl, sym, ap, ◌∙◌}
use mathlib.Core.Logic.{◌⊎◌, inl, inr, ◌↔◌}
use mathlib.Core.List.{List, [], ◌∷◌}
use native.Mathlib.Omega.{arith}
use grlx.Common.{Str, str, ◌==◌, ok, err, if◌then◌else◌, length, keep, test}
use grlx.Cook.Steps.{
  StepCompletion, CompletionStatus, dec_status, not_started, in_progress, completed, failed,
  skipped,
}
use grlx.Jobs.Summary.{
  JobStatus, job_pending, job_running, job_succeeded, job_failed, job_partial, to_string, of_string,
  JobSummary, tally, tally_all, build_summary,
}
use grlx.Jobs.Summary.Status.{status_is}

unfoldable pub count_status : CompletionStatus → List StepCompletion → ℕ
unfolding keep dec_status
count_status status steps =
    length (keep (λ step. test (dec_status step.completion_status status)) steps)

count_status-cons :
    (status : CompletionStatus) (step : StepCompletion) (steps : List StepCompletion)
    → count_status status (step ∷ steps)
      ≡ (if status_is step.completion_status status then 1 else 0) + count_status status steps
unfolding count_status keep
count_status-cons status step steps = ground arith

counts_bound :
    (steps : List StepCompletion)
    → count_status completed steps + count_status failed steps + count_status skipped steps
      ≤ length steps
unfolding count_status keep
counts_bound [] = omega arith
counts_bound (step ∷ steps) = ground (arith, counts_bound steps)

tally-eq :
    (s : JobSummary) (c : CompletionStatus)
    → ((tally s c).succeeded ≡ s.succeeded + (if status_is c completed then 1 else 0))
      × ((tally s c).failures ≡ s.failures + (if status_is c failed then 1 else 0))
      × ((tally s c).skips ≡ s.skips + (if status_is c skipped then 1 else 0))
      × ((tally s c).total ≡ s.total)
unfolding tally dec_status
tally-eq s not_started = ground arith
tally-eq s in_progress = ground arith
tally-eq s completed = ground arith
tally-eq s failed = ground arith
tally-eq s skipped = ground arith

counts :
    (s : JobSummary) (steps : List StepCompletion)
    → ((tally_all s steps).succeeded ≡ s.succeeded + count_status completed steps)
      × ((tally_all s steps).failures ≡ s.failures + count_status failed steps)
      × ((tally_all s steps).skips ≡ s.skips + count_status skipped steps)
      × ((tally_all s steps).total ≡ s.total)
unfolding tally_all count_status keep
counts s [] = ground arith
counts s (step ∷ steps) =
    let (a, b, c, d) = counts (tally s step.completion_status) steps in
    let (a', b', c', d') = tally-eq s step.completion_status in
    (ground arith, ground arith, ground arith, ground arith)

-- The counts of a summary are the numbers of steps that completed, failed and were skipped, and
-- together they are at most the number of all steps.
build_summary-counts :
    (steps : List StepCompletion)
    → ((build_summary steps).succeeded ≡ count_status completed steps)
      × ((build_summary steps).failures ≡ count_status failed steps)
      × ((build_summary steps).skips ≡ count_status skipped steps)
      × ((build_summary steps).succeeded
            + (build_summary steps).failures
            + (build_summary steps).skips
          ≤ (build_summary steps).total)
unfolding build_summary
build_summary-counts steps =
    let t =
      counts
        (record {
          status = job_pending;
          steps = steps;
          succeeded = 0;
          failures = 0;
          skips = 0;
          total = length steps;
        })
        steps in
    (ground (arith, t), ground (arith, t), ground (arith, t), ground (arith, t, counts_bound steps))

parsed :
    (text a b c d e : Str) (status : JobStatus)
    → (if text == a
        then ok job_pending
        else if text == b
        then ok job_running
        else if text == c
        then ok job_succeeded
        else if text == d
        then ok job_failed
        else if text == e
        then ok job_partial
        else err text)
      ≡ ok status
    → ((status ≡ job_pending) × (text ≡ a))
      ⊎ ((status ≡ job_running) × (text ≡ b))
      ⊎ ((status ≡ job_succeeded) × (text ≡ c))
      ⊎ ((status ≡ job_failed) × (text ≡ d))
      ⊎ ((status ≡ job_partial) × (text ≡ e))
parsed text a b c d e status h = ground arith

-- A text is read as a status exactly when it is the text of that status.
of_string-to_string :
    (text : Str) (status : JobStatus) → (of_string text ≡ ok status) ↔ (text ≡ to_string status)
unfolding of_string to_string
of_string-to_string text status = (
  λ e. only (
      parsed text (str "pending") (str "running") (str "succeeded") (str "failed") (str "partial")
        status e),
  λ e. ap of_string e ∙ back status,
)
  where
    only :
        ((status ≡ job_pending) × (text ≡ str "pending"))
          ⊎ ((status ≡ job_running) × (text ≡ str "running"))
          ⊎ ((status ≡ job_succeeded) × (text ≡ str "succeeded"))
          ⊎ ((status ≡ job_failed) × (text ≡ str "failed"))
          ⊎ ((status ≡ job_partial) × (text ≡ str "partial"))
        → text ≡ to_string status
    only (inl (p, q)) = q ∙ ap to_string (sym p)
    only (inr (inl (p, q))) = q ∙ ap to_string (sym p)
    only (inr (inr (inl (p, q)))) = q ∙ ap to_string (sym p)
    only (inr (inr (inr (inl (p, q))))) = q ∙ ap to_string (sym p)
    only (inr (inr (inr (inr (p, q))))) = q ∙ ap to_string (sym p)

    back : (status : JobStatus) → of_string (to_string status) ≡ ok status
    back job_pending = refl
    back job_running = refl
    back job_succeeded = refl
    back job_failed = refl
    back job_partial = refl
