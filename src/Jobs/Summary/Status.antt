-- ===== src/Jobs/Summary/Status.antt =====
-- What the status and the counts of a job say of its steps.
use mathlib.Core.Path.{◌≡◌, refl, sym, ◌∙◌}
use mathlib.Core.Logic.{◌⊎◌, inl, inr, ◌↔◌, ◌≢◌}
use mathlib.Core.Bool.{Bool, true, false, ◌&&◌, ◌||◌}
use mathlib.Core.List.{List, [], ◌∷◌, ◌++◌}
use native.Mathlib.Omega.{arith}
use grlx.Common.{if◌then◌else◌, test, All}
use grlx.Cook.Steps.{
  Step, StepCompletion, CompletionStatus, dec_status, not_started, in_progress, completed, failed,
  skipped,
}
use grlx.Jobs.Summary.{
  job_pending, job_running, job_succeeded, job_failed, job_partial, Flags, flag, flags_of,
  determine_job_status, build_summary, placeholders, load_job,
}

-- Whether a step of the log has a status.
unfoldable pub has_status : CompletionStatus → List StepCompletion → Bool
unfolding dec_status
has_status status [] = false
has_status status (step ∷ steps) =
    test (dec_status step.completion_status status) || has_status status steps

-- What a status sets, in terms of the status alone.
abbrev FlagsAre : Flags → Flags → Bool → Bool → Bool → Bool → Type 0
FlagsAre g f running broken waiting done =
    (g.has_in_progress ≡ (f.has_in_progress || running))
    × (g.has_failed ≡ (f.has_failed || broken))
    × (g.has_not_started ≡ (f.has_not_started || waiting))
    × (g.has_completed ≡ (f.has_completed || done))

abbrev pub status_is : CompletionStatus → CompletionStatus → Bool
status_is a b = test (dec_status a b)

flag-FlagsAre :
    (f : Flags) (s : CompletionStatus)
    → FlagsAre
        (flag f s)
        f
        (status_is s in_progress)
        (status_is s failed)
        (status_is s not_started)
        (status_is s completed || status_is s skipped)
unfolding flag dec_status
flag-FlagsAre f not_started = ground arith
flag-FlagsAre f in_progress = ground arith
flag-FlagsAre f completed = ground arith
flag-FlagsAre f failed = ground arith
flag-FlagsAre f skipped = ground arith

flags_of-FlagsAre :
    (f : Flags) (steps : List StepCompletion)
    → FlagsAre
        (flags_of f steps)
        f
        (has_status in_progress steps)
        (has_status failed steps)
        (has_status not_started steps)
        (has_status completed steps || has_status skipped steps)
unfolding flags_of has_status
flags_of-FlagsAre f [] = ground arith
flags_of-FlagsAre f (step ∷ steps) =
    let (a, b, c, d) = flag-FlagsAre f step.completion_status in
    let (a', b', c', d') = flags_of-FlagsAre (flag f step.completion_status) steps in
    (ground arith, ground arith, ground arith, ground arith)

-- The status of a job with steps, by what is among them: a running step first, then a failed one,
-- then steps that wait.
determine_job_status-has_status :
    (steps : List StepCompletion)
    → steps ≢ []
    → determine_job_status steps ≡ (
        if has_status in_progress steps
        then job_running
        else if has_status failed steps
        then job_failed
        else if has_status not_started steps
            && (has_status completed steps || has_status skipped steps)
        then job_partial
        else if has_status not_started steps
        then job_pending
        else job_succeeded)
unfolding determine_job_status
determine_job_status-has_status [] h = absurd (h refl)
determine_job_status-has_status (step ∷ steps) h =
    let (a, b, c, d) =
      flags_of-FlagsAre
        (record {
          has_in_progress = false;
          has_failed = false;
          has_not_started = false;
          has_completed = false;
        })
        (step ∷ steps) in
    ground arith

abbrev pub IsDone : StepCompletion → Type 0
IsDone step = (step.completion_status ≡ completed) ⊎ (step.completion_status ≡ skipped)

has_status-append :
    (status : CompletionStatus) (xs ys : List StepCompletion)
    → has_status status (xs ++ ys) ≡ (has_status status xs || has_status status ys)
unfolding has_status
has_status-append status [] ys = refl
has_status-append status (x ∷ xs) ys = ground (arith, has_status-append status xs ys)

status_is-done :
    (s : CompletionStatus)
    → (status_is s in_progress ≡ false)
        × (status_is s failed ≡ false)
        × (status_is s not_started ≡ false)
      ↔ ((s ≡ completed) ⊎ (s ≡ skipped))
unfolding dec_status
status_is-done not_started = ground arith
status_is-done in_progress = ground arith
status_is-done completed = ground arith
status_is-done failed = ground arith
status_is-done skipped = ground arith

All-IsDone :
    (steps : List StepCompletion)
    → (has_status in_progress steps ≡ false)
        × (has_status failed steps ≡ false)
        × (has_status not_started steps ≡ false)
      ↔ All IsDone steps
unfolding has_status
All-IsDone [] = (λ h. tt, λ h. (refl, refl, refl))
All-IsDone (step ∷ steps) =
    let (to, from) = status_is-done step.completion_status in
    let (to', from') = All-IsDone steps in
    (
      λ (a, b, c). (
        to (ground arith, ground arith, ground arith),
        to' (ground arith, ground arith, ground arith),
      ),
      λ (d, ds).
          let (a, b, c) = from d in
          let (a', b', c') = from' ds in (ground arith, ground arith, ground arith),
    )

not_succeeded :
    (running broken waiting done : Bool)
    → (if running
        then job_running
        else if broken
        then job_failed
        else if waiting && done
        then job_partial
        else if waiting
        then job_pending
        else job_succeeded)
      ≡ job_succeeded
    → (running ≡ false) × (broken ≡ false) × (waiting ≡ false)
not_succeeded running broken waiting done e = ground arith

-- A job is succeeded exactly when it has steps and every one of them completed or was skipped.
determine_job_status-succeeded :
    (steps : List StepCompletion)
    → (determine_job_status steps ≡ job_succeeded) ↔ ((steps ≢ []) × All IsDone steps)
unfolding determine_job_status
determine_job_status-succeeded [] = (λ e. cc, λ (h, _). absurd (h refl))
determine_job_status-succeeded (step ∷ steps) =
    let eq = determine_job_status-has_status (step ∷ steps) (λ e. cc) in
    let (to, from) = All-IsDone (step ∷ steps) in
    (
      λ e. (λ e. cc, to (not_succeeded _ _ _ _ (sym eq ∙ e))),
      λ (_, d). let (a, b, c) = from d in eq ∙ ground arith,
    )

all_waiting :
    (created : List Step) → created ≢ [] → has_status not_started (placeholders created) ≡ true
unfolding has_status placeholders
all_waiting [] h = absurd (h refl)
all_waiting (step ∷ steps) h = refl

none_else :
    (status : CompletionStatus) (created : List Step)
    → status ≢ not_started
    → has_status status (placeholders created) ≡ false
unfolding has_status placeholders
none_else status [] ne = refl
none_else status (step ∷ steps) ne = ground (arith, none_else status steps ne)

some_done :
    (steps : List StepCompletion)
    → steps ≢ []
    → All IsDone steps
    → (has_status completed steps || has_status skipped steps) ≡ true
unfolding has_status
some_done [] h d = absurd (h refl)
some_done (step ∷ steps) h (inl e, d) = ground arith
some_done (step ∷ steps) h (inr e, d) = ground arith

load_job-eq :
    (created : List Step) (events : List StepCompletion)
    → (load_job created events).status ≡ determine_job_status (placeholders created ++ events)
unfolding load_job build_summary
load_job-eq created events = refl

-- The log of a job that was created with steps keeps their placeholders, so its status is never
-- succeeded.
load_job-ne-succeeded :
    (created : List Step) (events : List StepCompletion)
    → created ≢ []
    → (load_job created events).status ≢ job_succeeded
load_job-ne-succeeded created events h e =
    let (_, done) =
      (determine_job_status-succeeded (placeholders created ++ events)).0
        (sym (load_job-eq created events) ∙ e) in
    let (_, _, none_waits) = (All-IsDone (placeholders created ++ events)).1 done in
    let waits = all_waiting created h in
    let split = has_status-append not_started (placeholders created) events in ground arith

log-not-nil :
    (created : List Step) (events : List StepCompletion)
    → created ≢ []
    → placeholders created ++ events ≢ []
unfolding placeholders
log-not-nil [] events h e = h refl
log-not-nil (step ∷ steps) events h e = cc

-- A job that was created with steps and whose events, of which there are some, all say that a step
-- completed or was skipped is shown as partial.
pub load_job-partial :
    (created : List Step) (events : List StepCompletion)
    → created ≢ []
    → events ≢ []
    → All IsDone events
    → (load_job created events).status ≡ job_partial
load_job-partial created events h g d =
    let (running, broken, _) = (All-IsDone events).1 d in
    let done = some_done events g d in
    let waits = all_waiting created h in
    let r = has_status-append in_progress (placeholders created) events in
    let b = has_status-append failed (placeholders created) events in
    let w = has_status-append not_started (placeholders created) events in
    let c = has_status-append completed (placeholders created) events in
    let s = has_status-append skipped (placeholders created) events in
    let r' = none_else in_progress created (λ e. cc) in
    let b' = none_else failed created (λ e. cc) in
    let c' = none_else completed created (λ e. cc) in
    let s' = none_else skipped created (λ e. cc) in
    load_job-eq created events
    ∙ determine_job_status-has_status (placeholders created ++ events)
        (log-not-nil created events h)
    ∙ ground arith
