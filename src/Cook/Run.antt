-- ===== src/Cook/Run.antt =====
-- `CookRecipeEnvelope` of internal/cook/sproutcook.go: the loop that starts the steps of a recipe
-- and collects their completions. Each goroutine of a step is an entry of `jobs` until it sends.
pub mod Counting
pub mod Conservation
pub mod Reports
pub mod Progress
pub mod Tracking
pub mod Quiet
pub mod Liveness
pub mod Events
use Prim.Native.Nat.{ℕ, suc, ◌+◌}
use mathlib.Core.Path.{◌≡◌}
use mathlib.Core.Logic.{◌⊎◌, ◌≢◌}
use mathlib.Core.Bool.{Bool, true, false, ◌&&◌, ◌||◌, not}
use mathlib.Core.Option.{Option, none, some}
use mathlib.Core.List.{List, [], ◌∷◌, ◌++◌}
use grlx.Common.{Str, str, Result, ok, err, if◌then◌else◌, length, leb, contains}
use grlx.Common.Dict.{lookup, insert}
use grlx.Cook.Steps.{
  CompletionStatus, dec_status, not_started, in_progress, completed, failed, skipped,
  StepCompletion, Step,
}
use grlx.Cook.Requisites.{Completions, Error, status_is, requisites_are_met}

-- A goroutine that has not sent its completion: one that runs a step, or one that reports the step
-- whose requisites cannot be met.
pub data Job : Type 0 where
  cooking refused : Str → Job

abbrev pub job_id : Job → Str
job_id (cooking id) = id
job_id (refused id) = id

-- How the loop stands: it goes on, it returned nil, it returned `ErrCookTimeout`.
pub data Phase : Type 0 where
  looping finished timed_out : Phase

pub record Run : Type 0 where
  -- `completionMap`
  pub completions : Completions
  -- `completionChan`, the next one first
  pub queue : List StepCompletion
  pub jobs : List Job
  -- `completed`
  pub reported : ℕ
  -- the events on the subject of the job, the last one first
  pub published : List StepCompletion
  pub phase : Phase

abbrev pub completion : Str → CompletionStatus → StepCompletion
completion id status = record { id = id; completion_status = status; changes_made = false }

abbrev pub start_id : Str → Str
start_id job_id = str "start-" ++ job_id

abbrev pub completed_id : Str → Str
completed_id job_id = str "completed-" ++ job_id

abbrev pub timeout_id : Str → Str
timeout_id job_id = str "timeout-" ++ job_id

-- `completionMap` before the loop.
unfoldable pub fresh_completions : List Step → Completions → Completions
unfolding insert
fresh_completions [] m = m
fresh_completions (step ∷ steps) m =
    fresh_completions steps (insert step.id (completion step.id not_started) m)

-- `stepMap`: the last step with an id; an id that is in no step has the zero value.
unfoldable pub step_of : List Step → Str → Option Step
unfolding lookup
step_of [] id = none
step_of (step ∷ steps) id = elim (step_of steps id) [
  | some s ↦ some s
  | none ↦ lookup id ((step.id, step) ∷ [])
]

abbrev pub no_step : Step
no_step = record { id = []; requisites = []; is_requisite = false }

abbrev pub step_at : List Step → Str → Step
step_at steps id = elim (step_of steps id) [ none ↦ no_step | some s ↦ s ]

unfoldable pub start_run : List Step → Str → Run
unfolding fresh_completions
start_run steps job_id = record {
  completions = fresh_completions steps [];
  queue = completion (start_id job_id) completed ∷ [];
  jobs = [];
  reported = 0;
  published = [];
  phase = looping;
}

-- What the loop over the map does with a key whose step was not started.
pub visit : List Step → Str → StepCompletion → Run → Run
unfolding step_of requisites_are_met insert
visit steps id c w = elim (requisites_are_met (step_at steps id) w.completions) [
  | err e ↦ record w {
    completions = insert id (record c { completion_status = failed }) w.completions;
    jobs = refused id ∷ w.jobs;
  }
  | ok met ↦ if not met then w else record w {
    completions = insert id (record c { completion_status = in_progress }) w.completions;
    jobs = cooking id ∷ w.jobs;
  }
]

-- The body of the loop over the map, on one of its keys.
pub look : List Step → Str → Run → Run
unfolding visit lookup dec_status
look steps id w = elim (lookup id w.completions) [
  | none ↦ w
  | some c ↦ if not (status_is c not_started) then w else visit steps id c w
]

-- The loop over the map, for the order of its keys that the runtime takes.
pub sweep : List Step → List Str → Run → Run
unfolding look
sweep steps [] w = w
sweep steps (id ∷ order) w = sweep steps order (look steps id w)

-- The end of the first case of the `select`.
unfoldable pub finish : List Step → Str → Run → Run
finish steps job_id w =
    if leb (length steps + 1) w.reported
    then record w {
      published = completion (completed_id job_id) completed ∷ w.published;
      phase = finished;
    }
    else w

-- The first case of the `select`, on a completion that it received.
unfoldable pub receive : List Step → Str → List Str → StepCompletion → Run → Run
unfolding sweep finish insert
receive steps job_id order c w = finish steps job_id (
    sweep steps order (record w {
      completions = insert c.id c w.completions;
      reported = w.reported + 1;
      published = c ∷ w.published;
    }))

-- The second case of the `select`.
unfoldable pub time_out : Str → Run → Run
time_out job_id w = record w {
  published = completion (timeout_id job_id) failed ∷ w.published;
  phase = timed_out;
}

-- What a goroutine may send: one that reports a refused step sends a failure, one that runs a step
-- sends whatever comes of it.
pub data Sends : Job → StepCompletion → Type 0 where
  reports : {id : Str} {c : StepCompletion} → c ≡ completion id failed → Sends (refused id) c
  ends :
      {id : Str} {c : StepCompletion}
      → c.id ≡ id
      → (c.completion_status ≡ completed)
        ⊎ (c.completion_status ≡ failed)
        ⊎ (c.completion_status ≡ skipped)
      → Sends (cooking id) c

-- The range over a map visits every key that the map has.
abbrev pub Covers : Completions → List Str → Type 0
Covers m order = (id : Str) (c : StepCompletion) → lookup id m ≡ some c → contains order id ≡ true

-- One event of a run: a goroutine sends, the loop receives and passes over its map in some order,
-- or the time is up.
pub data Event (steps : List Step) (job_id : Str) : Run → Run → Type 0 where
  sent :
      {w : Run} (j : Job) (before after : List Job) (c : StepCompletion)
      → w.jobs ≡ before ++ j ∷ after
      → Sends j c
      → Event steps job_id w (record w { jobs = before ++ after; queue = w.queue ++ c ∷ [] })
  received :
      {w : Run} (c : StepCompletion) (rest : List StepCompletion) (order : List Str)
      → w.phase ≡ looping
      → w.queue ≡ c ∷ rest
      → Covers (insert c.id c w.completions) order
      → Event steps job_id w (receive steps job_id order c (record w { queue = rest }))
  expired : {w : Run} → w.phase ≡ looping → Event steps job_id w (time_out job_id w)

pub data Reaches (steps : List Step) (job_id : Str) : Run → Type 0 where
  start : Reaches steps job_id (start_run steps job_id)
  next : {w w' : Run} → Reaches steps job_id w → Event steps job_id w w' → Reaches steps job_id w'
