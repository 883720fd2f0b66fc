-- ===== src/Cook/Run/Tracking.antt =====
-- Where the steps of a recipe are through the events of its run: each step that is in progress has a
-- goroutine or a completion in the channel.
use Prim.Native.Nat.{◌+◌}
use mathlib.Core.Path.{◌≡◌, refl, ap, subst, sym}
use mathlib.Core.Logic.{◌⊎◌, inl, inr}
use mathlib.Core.Bool.{Bool, true, false, ◌||◌}
use mathlib.Core.Option.{some}
use mathlib.Core.List.{List, [], ◌∷◌, ◌++◌, map}
use native.Mathlib.Omega.{arith}
use grlx.Common.{Str, dec_str, contains, length, leb, Bool-cases, All}
use grlx.Common.Dict.{lookup, insert, lookup-insert}
use grlx.Cook.Steps.{
  dec_status, not_started, in_progress, completed, failed, skipped, StepCompletion, Step,
}
use grlx.Cook.Requisites.{Completions, status_is}
use grlx.Cook.Run.{
  Job, job_id, Run, completion, fresh_completions, start_run, sweep, finish, receive, Sends,
  reports, ends,
}
use grlx.Cook.Run.Conservation.{All-snoc}
use grlx.Cook.Run.Progress.{begin, sweep_rule}
use grlx.Cook.Trees.{ids_of}

unfoldable pub is_running : StepCompletion → Bool
unfolding dec_status
is_running c = status_is c in_progress

abbrev pub job_ids : Run → List Str
job_ids w = map job_id w.jobs

abbrev pub queued_ids : Run → List Str
queued_ids w = map StepCompletion.id w.queue

abbrev pub is_active : Run → Str → Bool
is_active w id = contains (job_ids w) id || contains (queued_ids w) id

-- Every step has an entry, an entry in progress is active, and no completion in the channel says
-- that its step is in progress.
pub record IsTracked (steps : List Step) (w : Run) : Type 0 where
  pub known :
      (id : Str)
      → contains (ids_of steps) id ≡ true
      → (c : StepCompletion) × (lookup id w.completions ≡ some c)
  pub tracked :
      (id : Str) (c : StepCompletion)
      → lookup id w.completions ≡ some c
      → is_running c ≡ true
      → is_active w id ≡ true
  pub ended : All (λ c. is_running c ≡ false) w.queue

module _ (steps : List Step) where
  insert-known :
      (m : Completions) (set id : Str) (new : StepCompletion)
      → (c : StepCompletion) × (lookup id m ≡ some c)
      → (c : StepCompletion) × (lookup id (insert set new m) ≡ some c)
  insert-known m set id new (c, found) = elim (dec_str set id) [
    | yes e ↦ (new, ground (arith, lookup-insert set id new m))
    | no ne ↦ (c, ground (arith, lookup-insert set id new m))
  ]

  begin-IsTracked :
      (w : Run) (id : Str) (c old : StepCompletion) (j : Job)
      → IsTracked steps w
      → job_id j ≡ id
      → IsTracked steps (begin id c j w)
  unfolding contains
  begin-IsTracked w id c old j t same = record {
    known = λ x def. insert-known w.completions id x c (t.known x def);
    tracked = λ x d found run. elim (dec_str id x) [
      | yes e ↦ ground arith
      | no ne ↦
          (let before : lookup x w.completions ≡ some d =
              ground (arith, lookup-insert id x c w.completions) in
            ground (arith, t.tracked x d before run))
    ];
    ended = t.ended;
  }

  sweep-IsTracked :
      (order : List Str) (w : Run) → IsTracked steps w → IsTracked steps (sweep steps order w)
  sweep-IsTracked order w t =
      sweep_rule steps (IsTracked steps)
        (λ w id c old j t found wait done same. begin-IsTracked w id c old j t same) order w t

  finish-IsTracked :
      (job_id : Str) (w : Run) → IsTracked steps w → IsTracked steps (finish steps job_id w)
  unfolding finish
  finish-IsTracked job_id w t = elim (Bool-cases (leb (length steps + 1) w.reported)) [
    | inl e ↦ rw e (record { known = t.known; tracked = t.tracked; ended = t.ended })
    | inr e ↦ rw e t
  ]

  collect-IsTracked :
      (c : StepCompletion) (rest : List StepCompletion) (w : Run)
      → w.queue ≡ c ∷ rest
      → IsTracked steps w
      → IsTracked steps (record w {
        completions = insert c.id c w.completions;
        queue = rest;
        reported = w.reported + 1;
        published = c ∷ w.published;
      })
  unfolding contains
  collect-IsTracked c rest w e t =
      let (done, others) = subst (All (λ c. is_running c ≡ false)) e t.ended in
      record {
        known = λ x def. insert-known w.completions c.id x c (t.known x def);
        tracked = λ x d found run. elim (dec_str c.id x) [
          | yes same ↦ absurd (ground (arith, lookup-insert c.id x c w.completions))
          | no ne ↦
              (let before : lookup x w.completions ≡ some d =
                  ground (arith, lookup-insert c.id x c w.completions) in
                let at : queued_ids w ≡ c.id ∷ map StepCompletion.id rest =
                  ap (map StepCompletion.id) e in
                ground (arith, t.tracked x d before run))
        ];
        ended = others;
      }

  pub receive-IsTracked :
      (job_id : Str) (order : List Str) (c : StepCompletion) (rest : List StepCompletion) (w : Run)
      → w.queue ≡ c ∷ rest
      → IsTracked steps w
      → IsTracked steps (receive steps job_id order c (record w { queue = rest }))
  unfolding receive
  receive-IsTracked job_id order c rest w e t =
      finish-IsTracked job_id _ (sweep-IsTracked order _ (collect-IsTracked c rest w e t))

contains-map_append :
    {A : Type 0} (f : A → Str) (xs ys : List A) (id : Str)
    → contains (map f (xs ++ ys)) id ≡ (contains (map f xs) id || contains (map f ys) id)
unfolding contains
contains-map_append f [] ys id = refl
contains-map_append f (x ∷ xs) ys id = ground (arith, contains-map_append f xs ys id)

Sends-ended :
    (j : Job) (c : StepCompletion) → Sends j c → (c.id ≡ job_id j) × (is_running c ≡ false)
unfolding is_running
Sends-ended j c (reports {id} e) = (ap StepCompletion.id e, ap is_running e)
Sends-ended j c (ends {id} e o) = (e, ended o)
  where
    ended :
        (c.completion_status ≡ completed)
          ⊎ (c.completion_status ≡ failed)
          ⊎ (c.completion_status ≡ skipped)
        → is_running c ≡ false
    ended o = ground arith

pub send-IsTracked :
    (steps : List Step) (w : Run) (j : Job) (before after : List Job) (c : StepCompletion)
    → w.jobs ≡ before ++ j ∷ after
    → Sends j c
    → IsTracked steps w
    → IsTracked steps (record w { jobs = before ++ after; queue = w.queue ++ c ∷ [] })
unfolding contains
send-IsTracked steps w j before after c e s t =
    let (same, done) = Sends-ended j c s in
    record {
      known = t.known;
      tracked = λ x d found run.
          let at : job_ids w ≡ map job_id (before ++ j ∷ after) = ap (map job_id) e in
          ground (
            arith,
            t.tracked x d found run,
            contains-map_append job_id before (j ∷ after) x,
            contains-map_append job_id before after x,
            contains-map_append StepCompletion.id w.queue (c ∷ []) x,
          );
      ended = All-snoc (λ c. is_running c ≡ false) w.queue c t.ended done;
    }

-- Before the loop, every step has an entry and no entry is in progress.
fresh_completions-known :
    (steps : List Step) (m : Completions) (id : Str)
    → ((c : StepCompletion) × (lookup id m ≡ some c)) ⊎ (contains (ids_of steps) id ≡ true)
    → (c : StepCompletion) × (lookup id (fresh_completions steps m) ≡ some c)
unfolding fresh_completions contains
fresh_completions-known [] m id (inl k) = k
fresh_completions-known [] m id (inr e) = absurd (cc)
fresh_completions-known (step ∷ steps) m id h =
    fresh_completions-known steps (insert step.id (completion step.id not_started) m) id
      (elim (dec_str step.id id) [
        | yes e ↦ inl (
          completion step.id not_started,
          ground (arith, lookup-insert step.id id (completion step.id not_started) m),
        )
        | no ne ↦ elim h [
          | inl k ↦ inl (insert-known steps m step.id id (completion step.id not_started) k)
          | inr e ↦ inr (ground arith)
        ]
      ])

fresh_completions-at_rest :
    (steps : List Step) (m : Completions)
    → ((id : Str) (c : StepCompletion) → lookup id m ≡ some c → is_running c ≡ false)
    → (id : Str) (c : StepCompletion) → lookup id (fresh_completions steps m) ≡ some c
    → is_running c ≡ false
unfolding fresh_completions is_running
fresh_completions-at_rest [] m rest id c found = rest id c found
fresh_completions-at_rest (step ∷ steps) m rest id c found =
    fresh_completions-at_rest steps (insert step.id (completion step.id not_started) m)
      (λ x d f. elim (dec_str step.id x) [
        | yes e ↦
            (let same : completion step.id not_started ≡ d =
                ground (arith, lookup-insert step.id x (completion step.id not_started) m) in
              ap is_running (sym same))
        | no ne ↦
            rest x d (ground (arith, lookup-insert step.id x (completion step.id not_started) m))
      ])
      id c found

pub start_run-IsTracked :
    (steps : List Step) (job_id : Str) → IsTracked steps (start_run steps job_id)
unfolding start_run lookup is_running
start_run-IsTracked steps job_id = record {
  known = λ id def. fresh_completions-known steps [] id (inr def);
  tracked = λ id c found run.
      absurd
        (let rest = fresh_completions-at_rest steps [] (λ x d f. absurd (cc)) id c found in cc);
  ended = (refl, tt);
}
