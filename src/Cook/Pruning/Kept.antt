-- ===== src/Cook/Pruning/Kept.antt =====
-- The steps that `PruneToTarget` of internal/cook/helpers.go keeps.
use Prim.Native.Nat.{ℕ, zero, suc, ◌<◌}
use mathlib.Core.Path.{◌≡◌, refl, ap, subst, sym}
use mathlib.Core.Logic.{◌⊎◌, ◌↔◌, inl, inr}
use mathlib.Core.Bool.{true, false}
use mathlib.Core.Option.{none, some}
use mathlib.Core.List.{List, [], ◌∷◌}
use native.Mathlib.Omega.{arith}
use grlx.Common.{
  Str, dec_str, contains, keep, Result, ok, err, length, Bool-cases, Option-cases, remaining,
  remaining-lt, remaining-le_length,
}
use grlx.Cook.Steps.{Step, all_ids}
use grlx.Cook.Run.{step_of, step_at}
use grlx.Cook.Trees.{ids_of}
use grlx.Cook.Cycles.Paths.{requires}
use grlx.Cook.Cycles.Found.{step_of-ids_of}
use grlx.Cook.Cycles.Validation.{step_of-known}
use grlx.Cook.Pruning.{
  PruneError, target_step_not_found, dangling_requisite, visit_all, visit, prune_to_target,
}
use grlx.Cook.Pruning.Closure.{
  Leads, here, via, LeadsFrom, IsSubset, Visited, dangles, keeps, visit_all_run,
}

module _ (steps : List Step) where
  -- The cases of `visit`.
  visit-kept :
      (fuel : ℕ) (id : Str) (kept : List Str)
      → contains kept id ≡ true
      → visit (suc fuel) steps id kept ≡ ok kept
  unfolding visit
  visit-kept fuel id kept old = rw (visit, old) refl

  visit-unknown :
      (fuel : ℕ) (id : Str) (kept : List Str)
      → contains kept id ≡ false
      → step_of steps id ≡ none
      → visit (suc fuel) steps id kept ≡ err (dangling_requisite id)
  unfolding visit
  visit-unknown fuel id kept new absent = rw (visit, new, absent) refl

  visit-new :
      (fuel : ℕ) (id : Str) (kept : List Str) (step : Step)
      → contains kept id ≡ false
      → step_of steps id ≡ some step
      → visit (suc fuel) steps id kept
        ≡ visit_all (visit fuel steps) (requires steps id) (id ∷ kept)
  unfolding visit
  visit-new fuel id kept step new found =
      let same : requires steps id ≡ all_ids step.requisites = rw (step_at, found) refl in
      ground arith

  unknown_id : (id : Str) → step_of steps id ≡ none → contains (ids_of steps) id ≡ false
  unknown_id id absent = elim (Bool-cases (contains (ids_of steps) id)) [
    | inr e ↦ e
    | inl e ↦ absurd (let (step, found) = step_of-ids_of steps id e in cc)
  ]

  LeadsFrom-requires :
      (id x : Str) → LeadsFrom steps (requires steps id) x → LeadsFrom steps (id ∷ []) x
  unfolding contains
  LeadsFrom-requires id x (w, m, l) = (id, ground arith, via m l)

  Visited-below :
      (id : Str) (kept : List Str) {r : Result PruneError (List Str)}
      → Visited steps (requires steps id) (id ∷ kept) r
      → Visited steps (id ∷ []) kept r
  unfolding contains
  Visited-below id kept (dangles d e l u) = dangles d e (LeadsFrom-requires id d l) u
  Visited-below id kept (keeps more e sub start new) =
      keeps more e (λ x m. sub x (ground arith)) (λ x m. sub x (ground arith))
        (λ x m. elim (new x m) [
          | inr (l, r) ↦ inr (LeadsFrom-requires id x l, r)
          | inl old ↦ elim (dec_str x id) [
            | no ne ↦ inl (ground arith)
            | yes same ↦ inr (
              (id, ground arith, here (sym same)),
              subst (λ y. IsSubset (requires steps y) more) (sym same) start,
            )
          ]
        ])

  visit_run :
      (fuel : ℕ) (id : Str) (kept : List Str)
      → remaining (ids_of steps) kept < fuel
      → Visited steps (id ∷ []) kept (visit fuel steps id kept)
  unfolding contains
  visit_run zero id kept lt = absurd (omega arith)
  visit_run (suc fuel) id kept lt = elim (Bool-cases (contains kept id)) [
    | inl old ↦
        keeps kept (visit-kept fuel id kept old) (λ x m. m)
          (λ x m.
            let same : x ≡ id = ground arith in subst (λ y. contains kept y ≡ true) (sym same) old)
          (λ x m. inl m)
    | inr new ↦ elim (Option-cases (step_of steps id)) [
      | inl absent ↦
          dangles id (visit-unknown fuel id kept new absent) (id, ground arith, here refl)
            (unknown_id id absent)
      | inr (step, found) ↦
          subst (Visited steps (id ∷ []) kept) (sym (visit-new fuel id kept step new found)) (
            Visited-below id kept (
              let less =
                remaining-lt (ids_of steps) id kept (step_of-known steps id step found) new in
              visit_all_run steps (visit fuel steps) (remaining (ids_of steps) (id ∷ kept))
                (λ w more le. visit_run fuel w more (omega (arith, le, less, lt)))
                (requires steps id) (id ∷ kept) (omega arith)))
    ]
  ]

  length-ids_of : (ss : List Step) → length (ids_of ss) ≡ length ss
  length-ids_of [] = refl
  length-ids_of (s ∷ ss) = ap suc (length-ids_of ss)

-- What is closed under requisites and has an id has all that the id leads to.
closed_under :
    (steps : List Step) (ids : List Str)
    → ((x : Str) → contains ids x ≡ true → IsSubset (requires steps x) ids)
    → {to x : Str} → Leads steps to x
    → contains ids x ≡ true
    → contains ids to ≡ true
closed_under steps ids closed (here e) m = subst (λ y. contains ids y ≡ true) e m
closed_under steps ids closed (via {id} {w} r l) m =
    closed_under steps ids closed l (closed id m w r)

LeadsFrom-one :
    (steps : List Step) (target x : Str) → LeadsFrom steps (target ∷ []) x → Leads steps x target
unfolding contains
LeadsFrom-one steps target x (s, m, l) =
    let same : s ≡ target = ground arith in subst (Leads steps x) same l

-- With fuel for one step more than the recipe has, `PruneToTarget` ends in one of three ways: the
-- target is no step; a chain of requisites leads from it to an id that is no step, which the
-- error names; or the result has, in their order, exactly the steps that a chain of
-- requisites from the target leads to, the target itself with them.
pub prune_to_target-effect :
    (steps : List Step) (target : Str)
    → ((prune_to_target (suc (length steps)) steps target ≡ err (target_step_not_found target))
        × (contains (ids_of steps) target ≡ false))
      ⊎ ((d : Str) × (prune_to_target (suc (length steps)) steps target
            ≡ err (dangling_requisite d))
          × Leads steps d target
          × (contains (ids_of steps) d ≡ false))
      ⊎ ((kept : List Str) × (prune_to_target (suc (length steps)) steps target
            ≡ ok (keep (λ s. contains kept s.id) steps))
          × ((id : Str) → (contains kept id ≡ true) ↔ Leads steps id target))
unfolding prune_to_target contains
prune_to_target-effect steps target = elim (Option-cases (step_of steps target)) [
  | inl absent ↦ inl (rw (prune_to_target, absent) refl, unknown_id steps target absent)
  | inr (step, found) ↦ go step found (
      visit_run steps (suc (length steps)) target []
        (omega (arith, remaining-le_length (ids_of steps) [], length-ids_of steps steps)))
]
  where
    go :
        (step : Step)
        → step_of steps target ≡ some step
        → Visited steps (target ∷ []) [] (visit (suc (length steps)) steps target [])
        → ((prune_to_target (suc (length steps)) steps target ≡ err (target_step_not_found target))
            × (contains (ids_of steps) target ≡ false))
          ⊎ ((d : Str) × (prune_to_target (suc (length steps)) steps target
                ≡ err (dangling_requisite d))
              × Leads steps d target
              × (contains (ids_of steps) d ≡ false))
          ⊎ ((kept : List Str) × (prune_to_target (suc (length steps)) steps target
                ≡ ok (keep (λ s. contains kept s.id) steps))
              × ((id : Str) → (contains kept id ≡ true) ↔ Leads steps id target))
    go step found (dangles d e l u) =
        inr (inl (d, rw (prune_to_target, found, e) refl, LeadsFrom-one steps target d l, u))
    go step found (keeps more e sub start new) = inr (
        inr (
          more,
          rw (prune_to_target, found, e) refl,
          λ id. (
            λ m. LeadsFrom-one steps target id (fresh id m).0,
            λ l. closed_under steps more (λ x m. (fresh x m).1) l (start target (ground arith)),
          ),
        ))
      where
        fresh :
            (x : Str)
            → contains more x ≡ true
            → LeadsFrom steps (target ∷ []) x × IsSubset (requires steps x) more
        fresh x m = elim (new x m) [ inl old ↦ absurd (cc) | inr h ↦ h ]
