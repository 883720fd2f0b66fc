-- ===== src/Cook/Run/Conservation.antt =====
-- The accounts of the steps of a recipe through the events of its run.
use Prim.Native.Nat.{ℕ, ◌+◌}
use mathlib.Core.Path.{◌≡◌, refl, sym, ap, subst}
use mathlib.Core.Logic.{◌⊎◌, inl, inr, ◌≢◌}
use mathlib.Core.Bool.{Bool, true, false}
use mathlib.Core.Option.{some}
use mathlib.Core.List.{List, [], ◌∷◌, ◌++◌}
use native.Mathlib.Omega.{arith}
use grlx.Common.{Str, Result, ok, err, length, leb, All, Bool-cases, Option-cases, length-append}
use grlx.Common.Dict.{lookup, insert}
use grlx.Cook.Steps.{not_started, in_progress, completed, failed, skipped, StepCompletion, Step}
use grlx.Cook.Requisites.{Error, Completions, status_is, requisites_are_met}
use grlx.Cook.Run.{
  Job, cooking, refused, job_id, Run, step_at, visit, look, sweep, finish, receive, Sends, reports,
  ends,
}
use grlx.Cook.Run.Counting.{
  is_waiting, waiting, waits, waits-insert, waiting-insert_found, waiting-insert_settled,
}

-- A completion that ends a step, and an id that the map does not record as waiting.
abbrev pub IsEnd : Completions → StepCompletion → Type 0
IsEnd m c = (is_waiting c ≡ false) × (waits m c.id ≡ false)

abbrev IsSettled : Completions → Job → Type 0
IsSettled m j = waits m (job_id j) ≡ false

-- Of a recipe with `n` steps, those that were reported, whose completion is in the channel, whose
-- goroutine runs, or that were not started, are `n + 1` with the completion of the start.
unfoldable pub IsConserved : ℕ → Run → Type 0
unfolding waiting waits is_waiting
IsConserved n w =
    (w.reported + length w.queue + length w.jobs + waiting w.completions ≡ n + 1)
    × All (IsEnd w.completions) w.queue
    × All (IsSettled w.completions) w.jobs

-- Recording an entry that does not wait unsettles nothing.
waits-insert_settled :
    (m : Completions) (id j : Str) (c : StepCompletion)
    → is_waiting c ≡ false
    → waits m j ≡ false
    → waits (insert id c m) j ≡ false
waits-insert_settled m id j c done settled = ground (arith, waits-insert m id j c)

waits-insert_self :
    (m : Completions) (id : Str) (c : StepCompletion)
    → is_waiting c ≡ false
    → waits (insert id c m) id ≡ false
waits-insert_self m id c done = ground (arith, waits-insert m id id c)

IsEnd-insert :
    (m : Completions) (id : Str) (c : StepCompletion) (queue : List StepCompletion)
    → is_waiting c ≡ false
    → All (IsEnd m) queue
    → All (IsEnd (insert id c m)) queue
IsEnd-insert m id c [] done h = tt
IsEnd-insert m id c (q ∷ queue) done ((e, s), h) =
    ((e, waits-insert_settled m id q.id c done s), IsEnd-insert m id c queue done h)

IsSettled-insert :
    (m : Completions) (id : Str) (c : StepCompletion) (jobs : List Job)
    → is_waiting c ≡ false
    → All (IsSettled m) jobs
    → All (IsSettled (insert id c m)) jobs
IsSettled-insert m id c [] done h = tt
IsSettled-insert m id c (j ∷ jobs) done (s, h) =
    (waits-insert_settled m id (job_id j) c done s, IsSettled-insert m id c jobs done h)

-- Starting a goroutine for a step that waits, and recording that it does not.
IsConserved-begin :
    (n : ℕ) (w : Run) (id : Str) (old c : StepCompletion) (j : Job)
    → IsConserved n w
    → lookup id w.completions ≡ some old
    → is_waiting old ≡ true
    → is_waiting c ≡ false
    → job_id j ≡ id
    → IsConserved n (record w { completions = insert id c w.completions; jobs = j ∷ w.jobs })
unfolding IsConserved
IsConserved-begin n w id old c j (total, queued, settled) found waits_old done same = (
  ground (arith, waiting-insert_found w.completions id c found),
  IsEnd-insert w.completions id c w.queue done queued,
  (
    subst (λ k. waits (insert id c w.completions) k ≡ false) (sym same)
        (waits-insert_self w.completions id c done),
    IsSettled-insert w.completions id c w.jobs done settled,
  ),
)

is_waiting-ne : (c : StepCompletion) → c.completion_status ≢ not_started → is_waiting c ≡ false
unfolding is_waiting
is_waiting-ne c ne = ground arith

is_waiting-eq : (c : StepCompletion) {b : Bool} → is_waiting c ≡ b → status_is c not_started ≡ b
unfolding is_waiting
is_waiting-eq c e = e

visit-IsConserved :
    (n : ℕ) (steps : List Step) (w : Run) (id : Str) (old : StepCompletion)
    → IsConserved n w
    → lookup id w.completions ≡ some old
    → is_waiting old ≡ true
    → IsConserved n (visit steps id old w)
unfolding visit
visit-IsConserved n steps w id old h found waits_old =
    go (requisites_are_met (step_at steps id) w.completions) refl
  where
    go :
        (r : Result Error Bool)
        → requisites_are_met (step_at steps id) w.completions ≡ r
        → IsConserved n (visit steps id old w)
    go (ok true) e =
        rw (visit, e)
          (IsConserved-begin n w id old (record old { completion_status = in_progress })
            (cooking id) h found waits_old (is_waiting-ne _ (λ e. cc)) refl)
    go (ok false) e = rw (visit, e) h
    go (err x) e =
        rw (visit, e)
          (IsConserved-begin n w id old (record old { completion_status = failed }) (refused id) h
            found waits_old (is_waiting-ne _ (λ e. cc)) refl)

look-IsConserved :
    (n : ℕ) (steps : List Step) (id : Str) (w : Run)
    → IsConserved n w
    → IsConserved n (look steps id w)
unfolding look
look-IsConserved n steps id w h = elim (Option-cases (lookup id w.completions)) [
  | inl absent ↦ rw (look, absent) h
  | inr (old, found) ↦ elim (Bool-cases (is_waiting old)) [
    | inl waits_old ↦
        rw (look, found, is_waiting-eq old waits_old)
          (visit-IsConserved n steps w id old h found waits_old)
    | inr done ↦ rw (look, found, is_waiting-eq old done) h
  ]
]

sweep-IsConserved :
    (n : ℕ) (steps : List Step) (order : List Str) (w : Run)
    → IsConserved n w
    → IsConserved n (sweep steps order w)
unfolding sweep
sweep-IsConserved n steps [] w h = h
sweep-IsConserved n steps (id ∷ order) w h =
    sweep-IsConserved n steps order (look steps id w) (look-IsConserved n steps id w h)

finish-IsConserved :
    (n : ℕ) (steps : List Step) (job_id : Str) (w : Run)
    → IsConserved n w
    → IsConserved n (finish steps job_id w)
unfolding finish IsConserved
finish-IsConserved n steps job_id w h = elim (Bool-cases (leb (length steps + 1) w.reported)) [
  | inl e ↦ rw e h
  | inr e ↦ rw e h
]

collect-IsConserved :
    (n : ℕ) (c : StepCompletion) (rest : List StepCompletion) (w : Run)
    → w.queue ≡ c ∷ rest
    → IsConserved n w
    → IsConserved n (record w {
      completions = insert c.id c w.completions;
      queue = rest;
      reported = w.reported + 1;
      published = c ∷ w.published;
    })
unfolding IsConserved
collect-IsConserved n c rest w e (total, queued, settled) =
    let ((done, at_rest), others) = subst (All (IsEnd w.completions)) e queued in
    (
      ground (arith, waiting-insert_settled w.completions c.id c at_rest done, ap length e),
      IsEnd-insert w.completions c.id c rest done others,
      IsSettled-insert w.completions c.id c w.jobs done settled,
    )

pub receive-IsConserved :
    (n : ℕ) (steps : List Step) (job_id : Str) (order : List Str) (c : StepCompletion)
    (rest : List StepCompletion) (w : Run)
    → w.queue ≡ c ∷ rest
    → IsConserved n w
    → IsConserved n (receive steps job_id order c (record w { queue = rest }))
unfolding receive
receive-IsConserved n steps job_id order c rest w e h =
    finish-IsConserved n steps job_id _
      (sweep-IsConserved n steps order _ (collect-IsConserved n c rest w e h))

-- A goroutine that sends.
All-split :
    (P : Job → Type 0) (before : List Job) (j : Job) (after : List Job)
    → All P (before ++ j ∷ after)
    → P j × All P (before ++ after)
All-split P [] j after (h, hs) = (h, hs)
All-split P (b ∷ before) j after (h, hs) =
    let (a, rest) = All-split P before j after hs in (a, (h, rest))

pub All-snoc :
    (P : StepCompletion → Type 0) (xs : List StepCompletion) (x : StepCompletion)
    → All P xs
    → P x
    → All P (xs ++ x ∷ [])
All-snoc P [] x h p = (p, tt)
All-snoc P (y ∷ ys) x (h, hs) p = (h, All-snoc P ys x hs p)

Sends-IsEnd :
    (m : Completions) (j : Job) (c : StepCompletion) → Sends j c → IsSettled m j → IsEnd m c
unfolding is_waiting
Sends-IsEnd m j c (reports {id} e) h =
    (ap is_waiting e, subst (λ k. waits m k ≡ false) (sym (ap StepCompletion.id e)) h)
Sends-IsEnd m j c (ends {id} e o) h = (ended o, subst (λ k. waits m k ≡ false) (sym e) h)
  where
    ended :
        (c.completion_status ≡ completed)
          ⊎ (c.completion_status ≡ failed)
          ⊎ (c.completion_status ≡ skipped)
        → is_waiting c ≡ false
    ended o = ground arith

pub send-IsConserved :
    (n : ℕ) (w : Run) (j : Job) (before after : List Job) (c : StepCompletion)
    → w.jobs ≡ before ++ j ∷ after
    → Sends j c
    → IsConserved n w
    → IsConserved n (record w { jobs = before ++ after; queue = w.queue ++ c ∷ [] })
unfolding IsConserved
send-IsConserved n w j before after c e s (total, queued, settled) =
    let (mine, others) =
      All-split (IsSettled w.completions) before j after
        (subst (All (IsSettled w.completions)) e settled) in
    (
      ground (
        arith,
        ap length e,
        length-append before (j ∷ after),
        length-append before after,
        length-append w.queue (c ∷ []),
      ),
      All-snoc (IsEnd w.completions) w.queue c queued (Sends-IsEnd w.completions j c s mine),
      others,
    )
