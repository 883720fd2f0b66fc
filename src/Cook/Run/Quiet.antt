-- ===== src/Cook/Run/Quiet.antt =====
-- `CookRecipeEnvelope` of internal/cook/sproutcook.go: what holds of a run with nothing under way.
use Prim.Native.Nat.{◌+◌, ◌≤◌}
use mathlib.Core.Path.{◌≡◌, refl, ap, ◌∙◌, subst, sym}
use mathlib.Core.Logic.{◌≢◌, inl, inr}
use mathlib.Core.Bool.{false}
use mathlib.Core.Option.{none, some}
use mathlib.Core.List.{List, [], ◌∷◌, ◌++◌}
use native.Mathlib.Omega.{arith}
use grlx.Common.{Str, dec_str, contains, ok, length, leb, Bool-cases}
use grlx.Common.Dict.{lookup, insert, lookup-insert}
use grlx.Cook.Steps.{not_started, StepCompletion, Step}
use grlx.Cook.Requisites.{Completions, requisites_are_met}
use grlx.Cook.Run.{
  looping, Run, step_at, completion, fresh_completions, start_run, sweep, finish, receive, time_out,
  Covers, Event, sent, received, expired, Reaches, start, next,
}
use grlx.Cook.Run.Counting.{waiting, is_waiting}
use grlx.Cook.Run.Progress.{IsIdle, sweep_rule, sweep-IsIdle}
use grlx.Cook.Run.Tracking.{IsTracked, receive-IsTracked, send-IsTracked, start_run-IsTracked}

-- The keys of the map, an order of them in which the loop may pass over it.
abbrev pub keys_of : Completions → List Str
keys_of [] = []
keys_of ((id, c) ∷ m) = id ∷ keys_of m

pub keys_of-Covers : (m : Completions) → Covers m (keys_of m)
unfolding lookup contains
keys_of-Covers [] id c found = absurd (cc)
keys_of-Covers ((key, e) ∷ m) id c found = elim (dec_str key id) [
  | yes same ↦ ground arith
  | no ne ↦ ground (arith, keys_of-Covers m id c)
]

-- No two entries of the map have the same key.
unfoldable pub HasKeys : Completions → Type 0
unfolding lookup
HasKeys [] = Unit
HasKeys ((id, c) ∷ m) = (lookup id m ≡ none) × HasKeys m

insert-same :
    (set id : Str) (new c : StepCompletion) (m : Completions)
    → id ≡ set
    → insert set new ((id, c) ∷ m) ≡ (set, new) ∷ m
unfolding insert
insert-same set id new c m e = ground arith

insert-other :
    (set id : Str) (new c : StepCompletion) (m : Completions)
    → id ≢ set
    → insert set new ((id, c) ∷ m) ≡ (id, c) ∷ insert set new m
unfolding insert
insert-other set id new c m ne = ground arith

HasKeys-insert :
    (set : Str) (new : StepCompletion) (m : Completions) → HasKeys m → HasKeys (insert set new m)
unfolding HasKeys lookup insert
HasKeys-insert set new [] h = (refl, tt)
HasKeys-insert set new ((id, c) ∷ m) (a, h) = elim (dec_str id set) [
  | yes e ↦
      subst HasKeys (sym (insert-same set id new c m e)) (subst (λ x. lookup x m ≡ none) e a, h)
  | no ne ↦
      subst HasKeys (sym (insert-other set id new c m ne))
        (ground (arith, lookup-insert set id new m), HasKeys-insert set new m h)
]

-- Without a waiting entry, none is counted.
pub waiting-zero :
    (m : Completions)
    → HasKeys m
    → ((id : Str) (c : StepCompletion) → lookup id m ≡ some c → is_waiting c ≡ false)
    → waiting m ≡ 0
unfolding HasKeys lookup waiting
waiting-zero [] h rest = refl
waiting-zero ((id, c) ∷ m) (a, h) rest =
    let here : is_waiting c ≡ false = rest id c (ground arith) in
    let later : waiting m ≡ 0 = waiting-zero m h (λ x d found. elim (dec_str id x) [
      | yes e ↦ absurd (let b = ap (λ y. lookup y m) e in cc)
      | no ne ↦ rest x d (ground arith)
    ]) in
    ground arith

fresh_completions-HasKeys :
    (steps : List Step) (m : Completions) → HasKeys m → HasKeys (fresh_completions steps m)
unfolding fresh_completions
fresh_completions-HasKeys [] m h = h
fresh_completions-HasKeys (step ∷ steps) m h =
    fresh_completions-HasKeys steps (insert step.id (completion step.id not_started) m)
      (HasKeys-insert step.id (completion step.id not_started) m h)

-- When nothing is under way, the entries that wait have no requisites to wait for, and while the
-- loop goes on it has not received all the completions.
pub record IsQuiet (steps : List Step) (w : Run) : Type 0 where
  pub keys : HasKeys w.completions
  pub counted : w.phase ≡ looping → w.reported ≤ length steps
  pub quiet : w.queue ≡ [] → w.jobs ≡ [] → (id : Str) → IsIdle steps w.completions id

module _ (steps : List Step) (job_id : Str) where
  finish-reported : (w : Run) → (finish steps job_id w).phase ≡ looping → w.reported ≤ length steps
  unfolding finish
  finish-reported w l = ground arith

  pub finish-same :
      (w : Run)
      → ((finish steps job_id w).completions ≡ w.completions)
        × ((finish steps job_id w).jobs ≡ w.jobs)
        × ((finish steps job_id w).reported ≡ w.reported)
  unfolding finish
  finish-same w = elim (Bool-cases (leb (length steps + 1) w.reported)) [
    | inl e ↦ rw e (refl, refl, refl)
    | inr e ↦ rw e (refl, refl, refl)
  ]

  receive-IsQuiet :
      (order : List Str) (c : StepCompletion) (rest : List StepCompletion) (w : Run)
      → Covers (insert c.id c w.completions) order
      → IsQuiet steps w
      → IsQuiet steps (receive steps job_id order c (record w { queue = rest }))
  unfolding receive
  receive-IsQuiet order c rest w every q =
      let w' : Run = record w {
        completions = insert c.id c w.completions;
        queue = rest;
        reported = w.reported + 1;
        published = c ∷ w.published;
      } in
      let (a, b, d) = finish-same (sweep steps order w') in
      record {
        keys = subst HasKeys (sym a) (
            sweep_rule steps (λ v. HasKeys v.completions)
              (λ v id c old j h found wait done same. HasKeys-insert id c v.completions h) order w'
              (HasKeys-insert c.id c w.completions q.keys));
        counted =
            λ l. subst (λ n. n ≤ length steps) (sym d) (finish-reported (sweep steps order w') l);
        quiet = λ no_queue no_jobs id d found wait.
            let (kept, idle) = sweep-IsIdle steps order w' (sym b ∙ no_jobs) in
            let same = a ∙ kept in
            subst (λ m. requisites_are_met (step_at steps id) m ≡ ok false) (sym same)
              (let found' : lookup id w'.completions ≡ some d =
                  subst (λ m. lookup id m ≡ some d) same found in
                idle id (every id d found') d found' wait);
      }

  Event-IsQuiet : {w w' : Run} → Event steps job_id w w' → IsQuiet steps w → IsQuiet steps w'
  unfolding time_out
  Event-IsQuiet (sent {w} j before after c e s) q = record {
    keys = q.keys;
    counted = q.counted;
    quiet = λ no_queue. absurd (snoc_empty w.queue no_queue);
  }
    where
      snoc_empty : (xs : List StepCompletion) → (xs ++ c ∷ []) ≡ [] → ⊥
      snoc_empty [] e = cc
      snoc_empty (x ∷ xs) e = cc
  Event-IsQuiet (received {w} c rest order l e every) q = receive-IsQuiet order c rest w every q
  Event-IsQuiet (expired {w} l) q = record {
    keys = q.keys;
    counted = λ k. absurd (cc);
    quiet = q.quiet;
  }

  pub Reaches-IsQuiet : {w : Run} → Reaches steps job_id w → IsQuiet steps w
  unfolding start_run HasKeys
  Reaches-IsQuiet start = record {
    keys = fresh_completions-HasKeys steps [] tt;
    counted = λ l. omega arith;
    quiet = λ no_queue. absurd (cc);
  }
  Reaches-IsQuiet (next r e) = Event-IsQuiet e (Reaches-IsQuiet r)

  pub Reaches-IsTracked : {w : Run} → Reaches steps job_id w → IsTracked steps w
  unfolding time_out
  Reaches-IsTracked start = start_run-IsTracked steps job_id
  Reaches-IsTracked (next r (sent {w} j before after c e s)) =
      send-IsTracked steps w j before after c e s (Reaches-IsTracked r)
  Reaches-IsTracked (next r (received {w} c rest order l e every)) =
      receive-IsTracked steps job_id order c rest w e (Reaches-IsTracked r)
  Reaches-IsTracked (next r (expired {w} l)) =
      let t = Reaches-IsTracked r in
      record { known = t.known; tracked = t.tracked; ended = t.ended }
