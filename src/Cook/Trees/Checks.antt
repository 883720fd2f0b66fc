-- ===== src/Cook/Trees/Checks.antt =====
-- What the tests on the steps of a recipe decide.
use mathlib.Core.Path.{◌≡◌, refl, sym, ap, subst}
use mathlib.Core.Logic.{inl, inr, ◌↔◌}
use mathlib.Core.Bool.{true, false, ◌&&◌, not}
use mathlib.Core.List.{List, [], ◌∷◌, ◌++◌, map}
use native.Mathlib.Omega.{arith}
use grlx.Common.{Str, dec_str, contains, contains-append, keep, if◌then◌else◌, Bool-cases, All}
use grlx.Cook.Steps.{Step, all_ids}
use grlx.Cook.Run.Counting.{occurs, AreDistinct}
use grlx.Cook.Trees.{
  repeats, is_empty, no_duplicate_ids, ids_of, unresolved_of, all_requisites_defined, requisite_ids,
  mark_requisites, find_roots,
}

abbrev None : List Str → List Step → Type 0
None seen [] = Unit
None seen (step ∷ steps) = (contains seen step.id ≡ false) × None seen steps

None-cons :
    (seen : List Str) (id : Str) (steps : List Step)
    → None (id ∷ seen) steps ↔ (None seen steps × (occurs id steps ≡ false))
unfolding contains occurs
None-cons seen id [] = (λ h. (tt, refl), λ h. tt)
None-cons seen id (step ∷ steps) =
    let (to, from) = None-cons seen id steps in
    (
      λ (h, hs). let (a, b) = to hs in ((ground arith, a), ground arith),
      λ ((h, hs), o). (ground arith, from (hs, ground arith)),
    )

repeats-empty :
    (seen : List Str) (steps : List Step)
    → (is_empty (repeats seen steps) ≡ true) ↔ (None seen steps × AreDistinct steps)
unfolding repeats
repeats-empty seen [] = (λ e. (tt, tt), λ h. refl)
repeats-empty seen (step ∷ steps) =
    let (to, from) = repeats-empty (step.id ∷ seen) steps in
    let (split, join) = None-cons seen step.id steps in
    elim (Bool-cases (contains seen step.id)) [ inl e ↦ ground arith | inr e ↦ ground arith ]

-- `NoDuplicateIDs` accepts a recipe exactly when its steps have distinct ids.
pub no_duplicate_ids_iff :
    (steps : List Step) → ((no_duplicate_ids steps).0 ≡ true) ↔ AreDistinct steps
unfolding no_duplicate_ids
no_duplicate_ids_iff steps =
    let (to, from) = repeats-empty [] steps in (λ e. (to e).1, λ d. from (none_in steps, d))
  where
    none_in : (steps : List Step) → None [] steps
    none_in [] = tt
    none_in (step ∷ steps) = (refl, none_in steps)

is_empty-append :
    (xs ys : List Str)
    → (is_empty (xs ++ ys) ≡ true) ↔ ((is_empty xs ≡ true) × (is_empty ys ≡ true))
is_empty-append [] ys = ground arith
is_empty-append (x ∷ xs) ys = ground arith

is_empty-keep :
    (defined deps : List Str)
    → (is_empty (keep (λ dep. not (contains defined dep)) deps) ≡ true)
      ↔ ((dep : Str) → contains deps dep ≡ true → contains defined dep ≡ true)
unfolding keep contains
is_empty-keep defined [] = (λ e dep o. absurd (cc), λ h. refl)
is_empty-keep defined (x ∷ xs) =
    let (to, from) = is_empty-keep defined xs in
    elim (Bool-cases (contains defined x)) [
      | inl e ↦ (
        λ h dep o. elim (dec_str dep x) [
          | yes same ↦ subst (λ y. contains defined y ≡ true) (sym same) e
          | no ne ↦ to (ground arith) dep (ground arith)
        ],
        λ h. ground (arith, from (λ dep o. h dep (ground arith))),
      )
      | inr e ↦ (λ h. absurd (ground arith), λ h. absurd (ground (arith, h x (ground arith))))
    ]

unresolved_of-empty :
    (defined : List Str) (steps : List Step)
    → (is_empty (unresolved_of defined steps) ≡ true)
      ↔ ((dep : Str) → contains (requisite_ids steps) dep ≡ true → contains defined dep ≡ true)
unfolding unresolved_of requisite_ids contains
unresolved_of-empty defined [] = (λ e dep o. absurd (cc), λ h. refl)
unresolved_of-empty defined (step ∷ steps) =
    let (to, from) = unresolved_of-empty defined steps in
    let (to', from') = is_empty-keep defined (all_ids step.requisites) in
    let (split, join) =
      is_empty-append (keep (λ dep. not (contains defined dep)) (all_ids step.requisites))
        (unresolved_of defined steps) in
    (
      λ h dep o. elim (Bool-cases (contains (all_ids step.requisites) dep)) [
        | inl e ↦ to' (split h).0 dep e
        | inr e ↦
            to (split h).1 dep
              (ground (arith, contains-append (all_ids step.requisites) (requisite_ids steps) dep))
      ],
      λ h. join (
        from' (λ dep o.
            h dep (
              ground (arith, contains-append (all_ids step.requisites) (requisite_ids steps) dep))),
        from (λ dep o.
            h dep (
              ground (arith, contains-append (all_ids step.requisites) (requisite_ids steps) dep))),
      ),
    )

-- `AllRequisitesDefined` accepts a recipe exactly when every id that a step requires is the id of
-- a step.
pub all_requisites_defined_iff :
    (steps : List Step)
    → ((all_requisites_defined steps).0 ≡ true) ↔ (
        (dep : Str)
        → contains (requisite_ids steps) dep ≡ true
        → contains (ids_of steps) dep ≡ true)
unfolding all_requisites_defined
all_requisites_defined_iff steps = unresolved_of-empty (ids_of steps) steps

-- Marking, on any list of named ids.
mark : List Str → Step → Step
mark named step = if contains named step.id then record step { is_requisite = true } else step

mark-is_requisite :
    (named : List Str) (step : Step)
    → step.is_requisite ≡ false
    → ((mark named step).is_requisite ≡ contains named step.id) × ((mark named step).id ≡ step.id)
unfolding mark
mark-is_requisite named step u = elim (Bool-cases (contains named step.id)) [
  | inl e ↦ rw (mark, e) (refl, refl)
  | inr e ↦ rw (mark, e) (u, refl)
]

roots_of_marked :
    (named : List Str) (steps : List Step) (id : Str)
    → All (λ step. step.is_requisite ≡ false) steps
    → contains (ids_of (keep (λ step. not step.is_requisite) (map (mark named) steps))) id
      ≡ (contains (ids_of steps) id && not (contains named id))
unfolding keep contains
roots_of_marked named [] id fresh = refl
roots_of_marked named (step ∷ steps) id (u, fresh) =
    let (flag, same) = mark-is_requisite named step u in
    let at_id : id ≡ step.id → contains named id ≡ contains named step.id =
      λ e. ap (contains named) e in
    elim (Bool-cases (contains named step.id)) [
      | inl e ↦ elim (dec_str id step.id) [
        | yes q ↦ ground (arith, roots_of_marked named steps id fresh, at_id q)
        | no q ↦ ground (arith, roots_of_marked named steps id fresh)
      ]
      | inr e ↦ elim (dec_str id step.id) [
        | yes q ↦ ground (arith, roots_of_marked named steps id fresh, at_id q)
        | no q ↦ ground (arith, roots_of_marked named steps id fresh)
      ]
    ]

-- `FindRoots`, after the marking of `ValidateTrees` on steps that are not marked yet: the roots are
-- the steps whose id no step requires.
find_roots-mark_requisites :
    (steps : List Step) (id : Str)
    → All (λ step. step.is_requisite ≡ false) steps
    → contains (ids_of (find_roots (mark_requisites steps))) id
      ≡ (contains (ids_of steps) id && not (contains (requisite_ids steps) id))
unfolding find_roots mark_requisites mark
find_roots-mark_requisites steps id fresh = roots_of_marked (requisite_ids steps) steps id fresh
