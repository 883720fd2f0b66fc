-- ===== src/Cook/Run/Events.antt =====
-- `CookRecipeEnvelope` of internal/cook/sproutcook.go: how many events a run can have.
use Prim.Native.Nat.{ℕ, suc, ◌+◌, ◌*◌, ◌≤◌, ◌<◌}
use mathlib.Core.Path.{◌≡◌, refl, ap, subst}
use mathlib.Core.Logic.{◌≢◌, inl, inr}
use mathlib.Core.Bool.{true, false}
use mathlib.Core.Option.{some}
use mathlib.Core.List.{List, [], ◌∷◌}
use native.Mathlib.Omega.{arith}
use grlx.Common.{Str, length, leb, Bool-cases, length-append, All}
use grlx.Common.Dict.{lookup, insert}
use grlx.Cook.Steps.{StepCompletion, Step}
use grlx.Cook.Run.{
  Job, timed_out, Run, start_id, start_run, sweep, finish, receive, time_out, Event, sent, received,
  expired, Reaches, start, next,
}
use grlx.Cook.Run.Counting.{
  waiting, is_waiting, one_if, occurs, AreDistinct, waiting-insert_found, waiting-insert_settled,
  waiting-fresh_completions,
}
use grlx.Cook.Run.Conservation.{IsConserved, IsEnd}
use grlx.Cook.Run.Reports.{Reaches-IsConserved}
use grlx.Cook.Run.Progress.{begin, sweep_rule}

-- The events of a run, counted.
unfoldable pub events : {steps : List Step} {job_id : Str} {w : Run} → Reaches steps job_id w → ℕ
events start = 0
events (next r e) = suc (events r)

-- What is still to happen to the steps of a run.
abbrev weight : Run → ℕ
weight w = 2 * waiting w.completions + 2 * length w.jobs + length w.queue

begin-weight :
    (w : Run) (id : Str) (c old : StepCompletion) (j : Job) (n : ℕ)
    → weight w ≤ n
    → lookup id w.completions ≡ some old
    → is_waiting old ≡ true
    → is_waiting c ≡ false
    → weight (begin id c j w) ≤ n
begin-weight w id c old j n le found wait done =
    let moved = waiting-insert_found w.completions id c found in
    omega (arith, le, moved, ap one_if wait, ap one_if done)

module _ (steps : List Step) (job_id : Str) where
  sweep-weight :
      (order : List Str) (w : Run) (n : ℕ) → weight w ≤ n → weight (sweep steps order w) ≤ n
  sweep-weight order w n le =
      sweep_rule steps (λ v. weight v ≤ n)
        (λ v id c old j h found wait done e. begin-weight v id c old j n h found wait done) order w
        le

  finish-weight : (w : Run) → weight (finish steps job_id w) ≡ weight w
  unfolding finish
  finish-weight w = elim (Bool-cases (leb (length steps + 1) w.reported)) [
    | inl e ↦ rw e refl
    | inr e ↦ rw e refl
  ]

  receive-weight :
      (order : List Str) (c : StepCompletion) (rest : List StepCompletion) (w : Run)
      → w.queue ≡ c ∷ rest
      → IsConserved (length steps) w
      → weight (receive steps job_id order c (record w { queue = rest })) < weight w
  unfolding receive IsConserved
  receive-weight order c rest w e (total, queued, settled) =
      let ((done, at_rest), others) = subst (All (IsEnd w.completions)) e queued in
      let kept = waiting-insert_settled w.completions c.id c at_rest done in
      let w' : Run = record w {
        completions = insert c.id c w.completions;
        queue = rest;
        reported = w.reported + 1;
        published = c ∷ w.published;
      } in
      let swept = sweep-weight order w' (weight w') (omega arith) in
      let same = finish-weight (sweep steps order w') in
      omega (arith, kept, swept, same, ap length e)

  -- What each event but the last one takes off.
  Event-weight :
      {w w' : Run}
      → Event steps job_id w w'
      → w'.phase ≢ timed_out
      → IsConserved (length steps) w
      → weight w' < weight w
  unfolding time_out
  Event-weight (sent {w} j before after c e s) on h = omega (
    arith,
    ap length e,
    length-append before (j ∷ after),
    length-append before after,
    length-append w.queue (c ∷ []),
  )
  Event-weight (received {w} c rest order l e every) on h = receive-weight order c rest w e h
  Event-weight (expired l) on h = absurd (on refl)

  start_run-weight : AreDistinct steps → weight (start_run steps job_id) ≡ 2 * length steps + 1
  unfolding start_run
  start_run-weight d = let waits = waiting-fresh_completions steps d in omega (arith, waits)

  -- A run out of time stays so.
  still_on : {w w' : Run} → Event steps job_id w w' → w'.phase ≢ timed_out → w.phase ≢ timed_out
  unfolding time_out
  still_on (sent j before after c e s) on t = on t
  still_on (received c rest order l e every) on t = absurd (cc)
  still_on (expired l) on t = absurd (on refl)

  events-weight :
      {w : Run} (r : Reaches steps job_id w)
      → AreDistinct steps
      → occurs (start_id job_id) steps ≡ false
      → w.phase ≢ timed_out
      → events r + weight w ≤ 2 * length steps + 1
  unfolding events
  events-weight start d unused on = let e = start_run-weight d in omega (arith, e)
  events-weight (next r e) d unused on =
      let before = events-weight r d unused (still_on e on) in
      let less = Event-weight e on (Reaches-IsConserved steps job_id d unused r) in
      omega (arith, before, less)

-- A run of a recipe with `n` steps, of distinct ids, none of them the id of its start event, has at
-- most `2 * n + 1` events as long as its time is not up, whatever the order in which the
-- goroutines send and the map is passed over.
pub events-le :
    (steps : List Step) (job_id : Str) (w : Run) (r : Reaches steps job_id w)
    → AreDistinct steps
    → occurs (start_id job_id) steps ≡ false
    → w.phase ≢ timed_out
    → events r ≤ 2 * length steps + 1
events-le steps job_id w r d unused on =
    let h = events-weight steps job_id r d unused on in omega (arith, h)
