-- ===== src/Cook/Run/Liveness.antt =====
-- `CookRecipeEnvelope` of internal/cook/sproutcook.go: that its loop is not left waiting.
use mathlib.Core.Path.{◌≡◌, refl, ap}
use mathlib.Core.Logic.{◌⊎◌, ◌≢◌, inl, inr}
use mathlib.Core.Bool.{false}
use mathlib.Core.Option.{some}
use mathlib.Core.List.{List, [], ◌∷◌}
use native.Mathlib.Omega.{arith}
use grlx.Common.{Str, contains, length, Bool-cases}
use grlx.Common.Dict.{lookup}
use grlx.Cook.Steps.{dec_status, skipped, StepCompletion, Step}
use grlx.Cook.Requisites.{Completions, entry}
use grlx.Cook.Requisites.Settled.{IsFinal, requisites_are_met-settled}
use grlx.Cook.Run.{Job, looping, Run, start_id, step_at, Reaches}
use grlx.Cook.Run.Counting.{is_waiting, occurs}
use grlx.Cook.Run.Conservation.{IsConserved}
use grlx.Cook.Run.Reports.{Reaches-IsConserved}
use grlx.Cook.Run.Tracking.{is_running, IsTracked}
use grlx.Cook.Run.Quiet.{IsQuiet, Reaches-IsQuiet, Reaches-IsTracked, waiting-zero}
use grlx.Cook.Trees.{ids_of}
use grlx.Cook.Cycles.Paths.{Grounded, grounded}
use grlx.Cook.Cycles.Validation.{IsSound, Requires-known, Requires-requisite_ids}

-- An entry that does not wait, is not in progress and was not skipped.
status-IsFinal :
    (m : Completions) (id : Str) (c : StepCompletion)
    → lookup id m ≡ some c
    → is_waiting c ≡ false
    → is_running c ≡ false
    → c.completion_status ≢ skipped
    → IsFinal (entry m id)
unfolding entry is_waiting is_running dec_status
status-IsFinal m id c found settled still unskipped = ground arith

inactive :
    (steps : List Step) (w : Run)
    → IsTracked steps w
    → w.queue ≡ []
    → w.jobs ≡ []
    → (id : Str) (c : StepCompletion) → lookup id w.completions ≡ some c
    → is_running c ≡ false
unfolding contains
inactive steps w t no_queue no_jobs id c found = elim (Bool-cases (is_running c)) [
  | inr still ↦ still
  | inl run ↦ absurd (ground (arith, t.tracked id c found run))
]

-- With nothing under way, nothing waits below a grounded id.
Grounded-settled :
    (steps : List Step) (w : Run)
    → IsSound steps
    → IsTracked steps w
    → IsQuiet steps w
    → w.queue ≡ []
    → w.jobs ≡ []
    → ((id : Str) (c : StepCompletion)
        → lookup id w.completions ≡ some c
        → c.completion_status ≢ skipped)
    → (id : Str) → Grounded steps id
    → (c : StepCompletion) → lookup id w.completions ≡ some c
    → is_waiting c ≡ false
Grounded-settled steps w sound t q no_queue no_jobs unskipped id (grounded below) c found =
    elim (Bool-cases (is_waiting c)) [
      | inr settled ↦ settled
      | inl wait ↦ absurd (
          requisites_are_met-settled (step_at steps id) w.completions
            (λ v r.
              let (d, at) = t.known v (sound.1 v (Requires-requisite_ids steps id v r)) in
              status-IsFinal w.completions v d at
                (Grounded-settled steps w sound t q no_queue no_jobs unskipped v (below v r) d at)
                (inactive steps w t no_queue no_jobs v d at) (unskipped v d at))
            (q.quiet no_queue no_jobs id c found wait))
    ]

-- A run of a recipe that `ValidateTrees` accepts, none of whose ids is that of its start event, and
-- none of whose steps was skipped: while the loop goes on, a completion is in the channel or the
-- goroutine of a step has still to send one. The loop never waits for its time to run out alone.
pub run_goes_on :
    (steps : List Step) (job_id : Str) (w : Run)
    → IsSound steps
    → occurs (start_id job_id) steps ≡ false
    → Reaches steps job_id w
    → ((id : Str) (c : StepCompletion)
        → lookup id w.completions ≡ some c
        → c.completion_status ≢ skipped)
    → w.phase ≡ looping
    → ((c : StepCompletion) × (rest : List StepCompletion) × (w.queue ≡ c ∷ rest))
      ⊎ ((j : Job) × (rest : List Job) × (w.jobs ≡ j ∷ rest))
unfolding IsConserved
run_goes_on steps job_id w sound unused r unskipped l = go (w.queue) (w.jobs) refl refl
  where
    all_settled :
        w.queue ≡ []
        → w.jobs ≡ []
        → (id : Str) (c : StepCompletion) → lookup id w.completions ≡ some c
        → is_waiting c ≡ false
    all_settled no_queue no_jobs id c found =
        Grounded-settled steps w sound (Reaches-IsTracked steps job_id r)
          (Reaches-IsQuiet steps job_id r) no_queue no_jobs unskipped id
          (elim (Bool-cases (contains (ids_of steps) id)) [
            | inl known ↦ sound.2 id known
            | inr other ↦ grounded (λ v m. absurd (let known = Requires-known steps id v m in cc))
          ])
          c found

    go :
        (queue : List StepCompletion) (jobs : List Job)
        → w.queue ≡ queue
        → w.jobs ≡ jobs
        → ((c : StepCompletion) × (rest : List StepCompletion) × (w.queue ≡ c ∷ rest))
          ⊎ ((j : Job) × (rest : List Job) × (w.jobs ≡ j ∷ rest))
    go (c ∷ rest) jobs e f = inl (c, rest, e)
    go [] (j ∷ rest) e f = inr (j, rest, f)
    go [] [] e f =
        let q = Reaches-IsQuiet steps job_id r in
        let none_wait = waiting-zero w.completions q.keys (all_settled e f) in
        let (total, _, _) = Reaches-IsConserved steps job_id sound.0 unused r in
        let counted = q.counted l in
        absurd (omega (arith, total, counted, none_wait, ap length e, ap length f))
