-- ===== src/Rbac/Cohort/Members.antt =====
-- Membership in the sets that cohort.go builds: `resolveStatic`, `intersect`, `union`, `except`.
use mathlib.Core.Path.{◌≡◌, refl, ap}
use mathlib.Core.Logic.{inl, inr}
use mathlib.Core.Bool.{Bool, ◌&&◌, ◌||◌, not}
use mathlib.Core.List.{List, [], ◌∷◌}
use native.Mathlib.Omega.{arith}
use grlx.Common.{Str, dec_str, contains, contains-keep, Bool-cases, test}
use grlx.Rbac.Cohort.{Operator, and, or, except, add, add_all, Cohort, resolve_static, combine}

contains-add :
    (id : Str) (set : List Str) (x : Str)
    → contains (add id set) x ≡ (test (dec_str x id) || contains set x)
unfolding add contains
contains-add id set x = elim (Bool-cases (contains set id)) [
  | inl h ↦ elim (dec_str x id) [
    | yes e ↦ ground (arith, ap (contains set) e)
    | no ne ↦ ground arith
  ]
  | inr h ↦ ground arith
]

pub contains-add_all :
    (ids set : List Str) (x : Str)
    → contains (add_all ids set) x ≡ (contains set x || contains ids x)
unfolding add_all contains
contains-add_all [] set x = ground arith
contains-add_all (id ∷ ids) set x =
    ground (arith, contains-add_all ids (add id set) x, contains-add id set x)

pub contains-resolve_static :
    (c : Cohort) (x : Str) → contains (resolve_static c) x ≡ contains c.members x
unfolding resolve_static contains
contains-resolve_static c x = contains-add_all c.members [] x

-- What an operator does to the membership of one sprout.
abbrev pub combine_bool : Operator → Bool → Bool → Bool
combine_bool and a b = a && b
combine_bool or a b = a || b
combine_bool except a b = a && not b
combine_bool (Operator.unknown op) a b = a

pub contains-combine :
    (op : Operator) (a b : List Str) (x : Str)
    → contains (combine op a b) x ≡ combine_bool op (contains a x) (contains b x)
unfolding combine contains
contains-combine and a b x = contains-keep (λ id. contains b id) a x
contains-combine or a b x =
    ground (arith, contains-add_all b (add_all a []) x, contains-add_all a [] x)
contains-combine except a b x = contains-keep (λ id. not (contains b id)) a x
contains-combine (Operator.unknown op) a b x = refl
