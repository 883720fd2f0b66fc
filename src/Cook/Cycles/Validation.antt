-- ===== src/Cook/Cycles/Validation.antt =====
-- `HasCycle` and `ValidateTrees` of internal/cook/rootball.go, on a whole recipe.
use Prim.Native.Nat.{ℕ, ◌+◌}
use mathlib.Core.Path.{◌≡◌, refl}
use mathlib.Core.Logic.{◌⊎◌, ◌↔◌, inl, inr}
use mathlib.Core.Bool.{true, false}
use mathlib.Core.Option.{some}
use mathlib.Core.List.{List, [], ◌∷◌}
use native.Mathlib.Omega.{arith}
use grlx.Common.{Str, dec_str, contains, Result, ok, err, Bool-cases, Option-cases, contains-append}
use grlx.Common.Dict.{lookup}
use grlx.Cook.Steps.{Step, all_ids}
use grlx.Cook.Run.{step_of, step_at}
use grlx.Cook.Run.Counting.{AreDistinct}
use grlx.Cook.Trees.{
  ids_of, requisite_ids, no_duplicate_ids, all_requisites_defined, find_roots, mark_requisites,
}
use grlx.Cook.Trees.Checks.{no_duplicate_ids_iff, all_requisites_defined_iff}
use grlx.Cook.Cycles.{
  Stop, Invalid, not_unique, not_defined, dependency_cycle_found, has_cycle, validate_trees,
}
use grlx.Cook.Cycles.Paths.{requires, Requires, IsClosed, IsClosedAt-open}
use grlx.Cook.Cycles.Ending.{IsLinked}
use grlx.Cook.Cycles.Search.{AreGrounded, AreGrounded-nil}
use grlx.Cook.Cycles.Verdict.{scan-ends}

-- The requisites of a step of a recipe are among those that the recipe names.
requires-requisite_ids :
    (steps : List Step) (id w : Str) (step : Step)
    → step_of steps id ≡ some step
    → contains (all_ids step.requisites) w ≡ true
    → contains (requisite_ids steps) w ≡ true
unfolding step_of requisite_ids lookup
requires-requisite_ids [] id w step found r = absurd (cc)
requires-requisite_ids (s ∷ steps) id w step found r = elim (Option-cases (step_of steps id)) [
  | inr (t, later) ↦
      let same : t ≡ step = ground arith in
      ground (
        arith,
        requires-requisite_ids steps id w step (ground arith) r,
        contains-append (all_ids s.requisites) (requisite_ids steps) w,
      )
  | inl absent ↦
      let same : s ≡ step = ground arith in
      ground (arith, contains-append (all_ids s.requisites) (requisite_ids steps) w)
]

pub Requires-requisite_ids :
    (steps : List Step) (id w : Str) → Requires steps id w → contains (requisite_ids steps) w ≡ true
unfolding step_of contains all_ids
Requires-requisite_ids steps id w r = elim (Option-cases (step_of steps id)) [
  | inl absent ↦
      let same : requires steps id ≡ [] = rw (step_at, absent) refl in absurd (ground arith)
  | inr (step, found) ↦
      let same : requires steps id ≡ all_ids step.requisites = rw (step_at, found) refl in
      requires-requisite_ids steps id w step found (ground arith)
]

pub linked :
    (steps : List Step)
    → (all_requisites_defined steps).0 ≡ true
    → contains (ids_of steps) [] ≡ false
    → IsLinked steps
linked steps def named = record {
  defined =
      λ id w r. (all_requisites_defined_iff steps).0 def w (Requires-requisite_ids steps id w r);
  named = named;
}

-- On a recipe whose requisites are defined and whose ids are not empty, `HasCycle` ends: with
-- enough fuel, and with any more, it answers either yes, with the ids along a path of requisites
-- that leads from an id back to itself, or no, and then the requisites of every step, their
-- requisites, and so on, end.
pub has_cycle-decides :
    (steps : List Step)
    → (all_requisites_defined steps).0 ≡ true
    → contains (ids_of steps) [] ≡ false
    → (n : ℕ) × ((k : ℕ)
        → ((chain : List Str) × (has_cycle (n + k) steps ≡ ok (true, chain)) × IsClosed steps chain)
          ⊎ ((has_cycle (n + k) steps ≡ ok (false, [])) × AreGrounded steps (ids_of steps)))
unfolding has_cycle
has_cycle-decides steps def named =
    let (n, ends) = scan-ends steps (linked steps def named) steps (λ id m. m) in
    (n, λ k. ends (n + k) (omega arith) [] (AreGrounded-nil steps))

-- What a recipe has to be: no id twice, every requisite the id of a step, and no requisites without
-- end.
abbrev pub IsSound : List Step → Type 0
IsSound steps =
    AreDistinct steps
    × ((dep : Str) → contains (requisite_ids steps) dep ≡ true → contains (ids_of steps) dep ≡ true)
    × AreGrounded steps (ids_of steps)

pub step_of-known :
    (steps : List Step) (id : Str) (step : Step)
    → step_of steps id ≡ some step
    → contains (ids_of steps) id ≡ true
unfolding step_of contains lookup
step_of-known [] id step found = absurd (cc)
step_of-known (s ∷ steps) id step found = elim (Option-cases (step_of steps id)) [
  | inr (t, later) ↦ ground (arith, step_of-known steps id t later)
  | inl absent ↦ elim (dec_str s.id id) [ yes e ↦ ground arith | no ne ↦ absurd (ground arith) ]
]

pub Requires-known :
    (steps : List Step) (id w : Str) → Requires steps id w → contains (ids_of steps) id ≡ true
unfolding contains all_ids
Requires-known steps id w r = elim (Option-cases (step_of steps id)) [
  | inl absent ↦
      let same : requires steps id ≡ [] = rw (step_at, absent) refl in absurd (ground arith)
  | inr (step, found) ↦ step_of-known steps id step found
]

IsClosed-excludes : (steps : List Step) {chain : List Str} → IsClosed steps chain → ¬ IsSound steps
IsClosed-excludes steps (top, closed) (d, def, g) =
    IsClosedAt-open steps closed (g top (Requires-known steps top closed.0 closed.2))

-- An answer, and whether it is the acceptance.
abbrev Decides : List Step → Result Stop (Result Invalid (List Step)) → Type 0
Decides steps r =
    ((answer : Result Invalid (List Step)) × (r ≡ ok answer))
    × ((r ≡ ok (ok (find_roots (mark_requisites steps)))) ↔ IsSound steps)

refuses :
    (steps : List Step) (e : Invalid) {r : Result Stop (Result Invalid (List Step))}
    → r ≡ ok (err e)
    → ¬ IsSound steps
    → Decides steps r
refuses steps e h bad = ((err e, h), (λ k. absurd (cc), λ s. absurd (bad s)))

accepts :
    (steps : List Step) {r : Result Stop (Result Invalid (List Step))}
    → r ≡ ok (ok (find_roots (mark_requisites steps)))
    → IsSound steps
    → Decides steps r
accepts steps h s = ((ok (find_roots (mark_requisites steps)), h), (λ k. s, λ s. h))

-- `ValidateTrees` ends on a recipe whose ids are not empty: with enough fuel, and with any more, it
-- gives an answer, and it accepts the recipe, and returns the steps that no other requires,
-- exactly when no id occurs twice, every requisite is the id of a step, and the requisites of
-- every step, their requisites, and so on, end.
pub validate_trees-accepts :
    (steps : List Step)
    → contains (ids_of steps) [] ≡ false
    → (n : ℕ) × ((k : ℕ)
        → ((answer : Result Invalid (List Step)) × (validate_trees (n + k) steps ≡ ok answer))
          × ((validate_trees (n + k) steps ≡ ok (ok (find_roots (mark_requisites steps))))
              ↔ IsSound steps))
unfolding validate_trees
validate_trees-accepts steps named = elim (Bool-cases (no_duplicate_ids steps).0) [
  | inr twice ↦ (
    0,
    λ k.
        refuses steps (not_unique (no_duplicate_ids steps).1) (rw (validate_trees, twice) refl)
          (λ (d, def, g). let e = (no_duplicate_ids_iff steps).1 d in absurd (cc)),
  )
  | inl once ↦ elim (Bool-cases (all_requisites_defined steps).0) [
    | inr missing ↦ (
      0,
      λ k.
          refuses steps (not_defined (all_requisites_defined steps).1)
            (rw (validate_trees, once, missing) refl)
            (λ (d, def, g). let e = (all_requisites_defined_iff steps).1 def in absurd (cc)),
    )
    | inl defined ↦
        let (n, decides) = has_cycle-decides steps defined named in
        (
          n,
          λ k. elim (decides k) [
            | inl (chain, h, c) ↦
                refuses steps (dependency_cycle_found chain)
                  (rw (validate_trees, once, defined, h) refl) (IsClosed-excludes steps c)
            | inr (h, g) ↦ accepts steps (rw (validate_trees, once, defined, h) refl) (
              (no_duplicate_ids_iff steps).0 once,
              (all_requisites_defined_iff steps).0 defined,
              g,
            )
          ],
        )
  ]
]
