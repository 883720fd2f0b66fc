-- ===== src/Cook/Run/Reports.antt =====
-- What a run has reported when it ends, and the room in its channel.
use Prim.Native.Nat.{ℕ, ◌+◌, ◌≤◌}
use mathlib.Core.Path.{◌≡◌, refl, ◌∙◌}
use mathlib.Core.Logic.{inl, inr}
use mathlib.Core.Bool.{Bool, true, false}
use mathlib.Core.List.{List, [], ◌∷◌}
use native.Mathlib.Omega.{arith}
use grlx.Common.{Str, Result, ok, err, length, Bool-cases, Option-cases}
use grlx.Common.Dict.{lookup}
use grlx.Cook.Steps.{not_started, StepCompletion, Step}
use grlx.Cook.Requisites.{Error, status_is, requisites_are_met}
use grlx.Cook.Run.{
  looping, finished, Run, start_id, step_at, start_run, visit, look, sweep, finish, receive,
  time_out, Event, sent, received, expired, Reaches, start, next,
}
use grlx.Cook.Run.Counting.{
  waiting, occurs, AreDistinct, waiting-fresh_completions, waits-fresh_completions,
}
use grlx.Cook.Run.Conservation.{IsConserved, receive-IsConserved, send-IsConserved}

start_run-IsConserved :
    (steps : List Step) (job_id : Str)
    → AreDistinct steps
    → occurs (start_id job_id) steps ≡ false
    → IsConserved (length steps) (start_run steps job_id)
unfolding IsConserved start_run
start_run-IsConserved steps job_id d unused = (
  ground (arith, waiting-fresh_completions steps d),
  ((refl, waits-fresh_completions steps [] (start_id job_id) unused), tt),
  tt,
)

Event-IsConserved :
    (steps : List Step) (job_id : Str) (n : ℕ) {w w' : Run}
    → Event steps job_id w w'
    → IsConserved n w
    → IsConserved n w'
unfolding IsConserved time_out
Event-IsConserved steps job_id n (sent {w} j before after c e s) h =
    send-IsConserved n w j before after c e s h
Event-IsConserved steps job_id n (received {w} c rest order l e every) h =
    receive-IsConserved n steps job_id order c rest w e h
Event-IsConserved steps job_id n (expired l) h = h

pub Reaches-IsConserved :
    (steps : List Step) (job_id : Str) {w : Run}
    → AreDistinct steps
    → occurs (start_id job_id) steps ≡ false
    → Reaches steps job_id w
    → IsConserved (length steps) w
Reaches-IsConserved steps job_id d unused start = start_run-IsConserved steps job_id d unused
Reaches-IsConserved steps job_id d unused (next r e) =
    Event-IsConserved steps job_id (length steps) e (Reaches-IsConserved steps job_id d unused r)

-- The loop over the map leaves the phase and the count.
visit-phase :
    (steps : List Step) (id : Str) (c : StepCompletion) (w : Run)
    → (visit steps id c w).phase ≡ w.phase
unfolding visit
visit-phase steps id c w = go (requisites_are_met (step_at steps id) w.completions) refl
  where
    go :
        (r : Result Error Bool)
        → requisites_are_met (step_at steps id) w.completions ≡ r
        → (visit steps id c w).phase ≡ w.phase
    go (ok true) e = rw (visit, e) refl
    go (ok false) e = rw (visit, e) refl
    go (err x) e = rw (visit, e) refl

look-phase : (steps : List Step) (id : Str) (w : Run) → (look steps id w).phase ≡ w.phase
unfolding look
look-phase steps id w = elim (Option-cases (lookup id w.completions)) [
  | inl absent ↦ rw (look, absent) refl
  | inr (c, found) ↦ elim (Bool-cases (status_is c not_started)) [
    | inl e ↦ rw (look, found, e) (visit-phase steps id c w)
    | inr e ↦ rw (look, found, e) refl
  ]
]

sweep-phase :
    (steps : List Step) (order : List Str) (w : Run) → (sweep steps order w).phase ≡ w.phase
unfolding sweep
sweep-phase steps [] w = refl
sweep-phase steps (id ∷ order) w = sweep-phase steps order (look steps id w) ∙ look-phase steps id w

-- The loop returns nil only with enough completions.
abbrev IsCounted : List Step → Run → Type 0
IsCounted steps w = w.phase ≡ finished → length steps + 1 ≤ w.reported

finish-IsCounted :
    (steps : List Step) (job_id : Str) (w : Run)
    → w.phase ≡ looping
    → IsCounted steps (finish steps job_id w)
unfolding finish
finish-IsCounted steps job_id w l e = ground arith

Reaches-IsCounted :
    (steps : List Step) (job_id : Str) {w : Run} → Reaches steps job_id w → IsCounted steps w
unfolding start_run time_out receive
Reaches-IsCounted steps job_id start e = absurd (cc)
Reaches-IsCounted steps job_id (next r (sent j before after c p s)) e =
    Reaches-IsCounted steps job_id r e
Reaches-IsCounted steps job_id (next r (received c rest order l p every)) e =
    finish-IsCounted steps job_id _ (sweep-phase steps order _ ∙ l) e
Reaches-IsCounted steps job_id (next r (expired l)) e = absurd (cc)

length_zero : {A : Type 0} (xs : List A) → length xs ≡ 0 → xs ≡ []
length_zero [] e = refl
length_zero (x ∷ xs) e = absurd (omega (arith, e))

-- A run of a recipe whose steps have distinct ids, none of them the id of its start event, has
-- when it returns without an error no step that was not started, no step that runs and no
-- completion left in the channel, and the completions that it received are as many as its steps
-- and one for the start.
pub finished_reports :
    (steps : List Step) (job_id : Str) (w : Run)
    → AreDistinct steps
    → occurs (start_id job_id) steps ≡ false
    → Reaches steps job_id w
    → w.phase ≡ finished
    → (waiting w.completions ≡ 0) × (w.jobs ≡ []) × (w.queue ≡ []) × (w.reported ≡ length steps + 1)
unfolding IsConserved
finished_reports steps job_id w d unused r e =
    let (total, _, _) = Reaches-IsConserved steps job_id d unused r in
    let enough = Reaches-IsCounted steps job_id r e in
    (
      omega (arith, total, enough),
      length_zero w.jobs (omega (arith, total, enough)),
      length_zero w.queue (omega (arith, total, enough)),
      omega (arith, total, enough),
    )

-- At every moment of such a run, also after it returned, the channel has room for the completion
-- of every goroutine that did not send yet.
channel_has_room :
    (steps : List Step) (job_id : Str) (w : Run)
    → AreDistinct steps
    → occurs (start_id job_id) steps ≡ false
    → Reaches steps job_id w
    → length w.queue + length w.jobs ≤ length steps + 1
unfolding IsConserved
channel_has_room steps job_id w d unused r =
    let (total, _, _) = Reaches-IsConserved steps job_id d unused r in omega (arith, total)
