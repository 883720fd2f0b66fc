-- ===== src/Cook/Run/Progress.antt =====
-- What one pass of the loop over its map does to a run, and what it leaves as it is.
use Prim.Native.Nat.{ℕ, ◌≤◌}
use mathlib.Core.Path.{◌≡◌, refl, ap, ◌∙◌, subst, sym}
use mathlib.Core.Logic.{inl, inr}
use mathlib.Core.Bool.{Bool, true, false}
use mathlib.Core.Option.{some}
use mathlib.Core.List.{List, [], ◌∷◌}
use native.Mathlib.Omega.{arith}
use grlx.Common.{Str, dec_str, contains, Result, ok, err, length, Bool-cases, Option-cases}
use grlx.Common.Dict.{lookup, insert}
use grlx.Cook.Steps.{dec_status, not_started, in_progress, failed, StepCompletion, Step}
use grlx.Cook.Requisites.{Error, Completions, status_is, requisites_are_met}
use grlx.Cook.Run.{Job, cooking, refused, job_id, Run, step_at, visit, look, sweep}
use grlx.Cook.Run.Counting.{is_waiting}

-- A step starts: its entry no longer waits, and it has a goroutine.
abbrev pub begin : Str → StepCompletion → Job → Run → Run
begin id c j w = record w { completions = insert id c w.completions; jobs = j ∷ w.jobs }

-- Whether the entry of an id, if it waits, waits for its requisites.
abbrev pub IsIdle : List Step → Completions → Str → Type 0
IsIdle steps m id =
    (c : StepCompletion)
    → lookup id m ≡ some c
    → is_waiting c ≡ true
    → requisites_are_met (step_at steps id) m ≡ ok false

-- The two effects of the body of the loop on a key.
pub data Looked (steps : List Step) (id : Str) (w : Run) : Run → Type 0 where
  stays : {w' : Run} → w' ≡ w → IsIdle steps w.completions id → Looked steps id w w'
  begins :
      {w' : Run} (c old : StepCompletion) (j : Job)
      → w' ≡ begin id c j w
      → lookup id w.completions ≡ some old
      → is_waiting old ≡ true
      → is_waiting c ≡ false
      → job_id j ≡ id
      → Looked steps id w w'

is_waiting-eq : (c : StepCompletion) {b : Bool} → is_waiting c ≡ b → status_is c not_started ≡ b
unfolding is_waiting
is_waiting-eq c e = e

visit-Looked :
    (steps : List Step) (id : Str) (old : StepCompletion) (w : Run)
    → lookup id w.completions ≡ some old
    → is_waiting old ≡ true
    → Looked steps id w (visit steps id old w)
unfolding visit is_waiting dec_status
visit-Looked steps id old w found wait =
    go (requisites_are_met (step_at steps id) w.completions) refl
  where
    go :
        (r : Result Error Bool)
        → requisites_are_met (step_at steps id) w.completions ≡ r
        → Looked steps id w (visit steps id old w)
    go (ok true) e =
        begins (record old { completion_status = in_progress }) old (cooking id)
          (rw (visit, e) refl) found wait refl refl
    go (ok false) e = stays (rw (visit, e) refl) (λ c f held. e)
    go (err x) e =
        begins (record old { completion_status = failed }) old (refused id) (rw (visit, e) refl)
          found wait refl refl

pub look-Looked : (steps : List Step) (id : Str) (w : Run) → Looked steps id w (look steps id w)
unfolding look
look-Looked steps id w = elim (Option-cases (lookup id w.completions)) [
  | inl absent ↦ stays (rw (look, absent) refl) (λ c found wait. absurd (cc))
  | inr (old, found) ↦ elim (Bool-cases (is_waiting old)) [
    | inl wait ↦
        subst (Looked steps id w) (sym (rw (look, found, is_waiting-eq old wait) refl))
          (visit-Looked steps id old w found wait)
    | inr done ↦
        stays (rw (look, found, is_waiting-eq old done) refl)
          (λ c f wait. let same : c ≡ old = cc in absurd (cc))
  ]
]

-- What holds of a run, and of every run where one more step starts, holds behind a pass.
pub sweep_rule :
    (steps : List Step) (P : Run → Type 0)
    → ((w : Run) (id : Str) (c old : StepCompletion) (j : Job)
        → P w
        → lookup id w.completions ≡ some old
        → is_waiting old ≡ true
        → is_waiting c ≡ false
        → job_id j ≡ id
        → P (begin id c j w))
    → (order : List Str) (w : Run) → P w
    → P (sweep steps order w)
unfolding sweep
sweep_rule steps P step [] w h = h
sweep_rule steps P step (id ∷ order) w h =
    sweep_rule steps P step order (look steps id w) (go (look-Looked steps id w))
  where
    go : {w' : Run} → Looked steps id w w' → P w'
    go (stays e idle) = subst P (sym e) h
    go (begins c old j e found wait done same) =
        subst P (sym e) (step w id c old j h found wait done same)

sweep-jobs :
    (steps : List Step) (order : List Str) (w : Run) (n : ℕ)
    → n ≤ length w.jobs
    → n ≤ length (sweep steps order w).jobs
sweep-jobs steps order w n =
    sweep_rule steps (λ v. n ≤ length v.jobs) (λ v id c old j h found wait done same. omega arith)
      order w

-- A pass that leaves no goroutine found every entry of its keys at rest, and changed nothing.
pub sweep-IsIdle :
    (steps : List Step) (order : List Str) (w : Run)
    → (sweep steps order w).jobs ≡ []
    → ((sweep steps order w).completions ≡ w.completions)
      × ((id : Str) → contains order id ≡ true → IsIdle steps w.completions id)
unfolding sweep contains
sweep-IsIdle steps [] w none_left = (refl, λ id m. absurd (cc))
sweep-IsIdle steps (x ∷ order) w none_left =
    go (λ gone. sweep-IsIdle steps order w gone) (look-Looked steps x w) none_left
  where
    go :
        {w' : Run}
        → ((sweep steps order w).jobs ≡ []
            → ((sweep steps order w).completions ≡ w.completions)
              × ((id : Str) → contains order id ≡ true → IsIdle steps w.completions id))
        → Looked steps x w w'
        → (sweep steps order w').jobs ≡ []
        → ((sweep steps order w').completions ≡ w.completions)
          × ((id : Str) → contains (x ∷ order) id ≡ true → IsIdle steps w.completions id)
    go again (begins c old j e found wait done same) gone = absurd (
        let more = sweep-jobs steps order (begin x c j w) 1 (omega arith) in
        let empty : (sweep steps order (begin x c j w)).jobs ≡ [] =
          ap (λ v. (sweep steps order v).jobs) (sym e) ∙ gone in
        omega (arith, more, ap length empty))
    go again (stays e idle) gone =
        let (kept, rest) = again (ap (λ v. (sweep steps order v).jobs) (sym e) ∙ gone) in
        (
          ap (λ v. (sweep steps order v).completions) e ∙ kept,
          λ id m. elim (dec_str id x) [
            | yes s ↦ subst (IsIdle steps w.completions) (sym s) idle
            | no ne ↦ rest id (ground arith)
          ],
        )
