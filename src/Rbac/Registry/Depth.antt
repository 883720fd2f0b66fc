-- ===== src/Rbac/Registry/Depth.antt =====
-- `computeDepth` of internal/rbac/cohort.go: its recursion, its map of visited names and the depths
-- of the operands.
use Prim.Native.Nat.{ℕ, zero, suc, ◌≤◌, ◌<◌, max}
use mathlib.Core.Path.{◌≡◌, refl, ap, ◌∙◌, subst}
use mathlib.Core.Logic.{◌≢◌, inl, inr, ⊎_elim}
use mathlib.Core.Bool.{true, false, not}
use mathlib.Core.Option.{some}
use mathlib.Core.List.{List, [], ◌∷◌, Memᴰ}
use mathlib.Core.List.Memᴰ
use native.Mathlib.Omega.{arith}
use grlx.Common.{
  Str, dec_str, ◌==◌, contains, keep, Result, ok, err, ◌>>=◌, length, Bool-cases, Option-cases,
  Memᴰ-cons, >>=-eq-ok, keep_absent,
}
use grlx.Rbac.Error.{Error, out_of_fuel}
use grlx.Rbac.Cohort.{Cohort, CompoundExpr}
use grlx.Rbac.Registry.{
  named, is_compound, operands_of, max_child, leave_cohort, compound_depth, compute_depth,
}

-- A computation of depths that leaves the visited names as it finds them.
abbrev pub Restores : (Str → List Str → Result Error (ℕ × List Str)) → Type 0
Restores depth_of =
    (op : Str) (visited : List Str) (d : ℕ) (left : List Str)
    → depth_of op visited ≡ ok (d, left)
    → left ≡ visited

-- What a loop over operands that succeeds says of each.
pub max_child_bound :
    (depth_of : Str → List Str → Result Error (ℕ × List Str))
    → Restores depth_of
    → (operands visited : List Str) (deepest : ℕ) (d : ℕ) (left : List Str)
    → max_child depth_of operands visited deepest ≡ ok (d, left)
    → (left ≡ visited)
      × (deepest ≤ d)
      × ((op : Str)
          → Memᴰ op operands
          → (n : ℕ) × (depth_of op visited ≡ ok (n, visited)) × (n ≤ d))
unfolding max_child
max_child_bound depth_of restores [] visited deepest d left h =
    (ground arith, ground arith, λ op m. absurd (Memᴰ.not-nil m))
max_child_bound depth_of restores (op ∷ operands) visited deepest d left h =
    let ((n, seen), first, rest) = >>=-eq-ok (depth_of op visited) _ h in
    let same = restores op visited n seen first in
    let (kept, le, each) =
      max_child_bound depth_of restores operands seen (max deepest n) d left rest in
    (
      kept ∙ same,
      omega arith,
      λ o m.
          ⊎_elim
            (λ e.
              (n, ap (λ x. depth_of x visited) e ∙ first ∙ ap (λ v. ok (n, v)) same, omega arith))
            (λ k. transport_visited o (each o k) same) ((Memᴰ-cons o op operands).0 m),
    )
  where
    transport_visited :
        (o : Str) {seen : List Str}
        → (n : ℕ) × (depth_of o seen ≡ ok (n, seen)) × (n ≤ d)
        → seen ≡ visited
        → (n : ℕ) × (depth_of o visited ≡ ok (n, visited)) × (n ≤ d)
    transport_visited o w same = subst (λ v. (n : ℕ) × (depth_of o v ≡ ok (n, v)) × (n ≤ d)) same w

-- The case of `computeDepth` that returns a depth.
pub compute_depth-eq-ok :
    (fuel : ℕ) (cohorts : List Cohort) (name : Str) (visited : List Str) (d : ℕ) (left : List Str)
    → compute_depth (suc fuel) cohorts name visited ≡ ok (d, left)
    → (c : Cohort) × (contains visited name ≡ false)
      × (named cohorts name ≡ some c)
      × (compound_depth (compute_depth fuel cohorts) c name visited ≡ ok (d, left))
unfolding compute_depth
compute_depth-eq-ok fuel cohorts name visited d left h = elim (Bool-cases (contains visited name)) [
  | inl seen ↦ absurd (ground arith)
  | inr new ↦ elim (Option-cases (named cohorts name)) [
    | inl unknown ↦ absurd (ground arith)
    | inr (c, found) ↦ (c, new, found, ground arith)
  ]
]

-- The case of a compound cohort.
pub compound_depth-eq-ok :
    (depth_of : Str → List Str → Result Error (ℕ × List Str)) (c : Cohort) (name : Str)
    (visited : List Str) (d : ℕ) (left : List Str)
    → is_compound c.type ≡ true
    → compound_depth depth_of c name visited ≡ ok (d, left)
    → (expr : CompoundExpr) × (deepest : ℕ) × (seen : List Str) × (c.compound ≡ some expr)
      × (max_child depth_of expr.operands (name ∷ visited) 0 ≡ ok (deepest, seen))
      × (d ≡ suc deepest)
      × (left ≡ keep (λ v. not (v == name)) seen)
unfolding compound_depth operands_of
compound_depth-eq-ok depth_of c name visited d left isc h = elim (Option-cases c.compound) [
  | inl nil ↦ absurd (ground arith)
  | inr (expr, e) ↦
      let k : (max_child depth_of expr.operands (name ∷ visited) 0 >>= leave_cohort name)
          ≡ ok (d, left) =
        ground arith in
      let (r, loop, out) =
        >>=-eq-ok (max_child depth_of expr.operands (name ∷ visited) 0) (leave_cohort name) k in
      (expr, r.0, r.1, e, loop, ground arith, ground arith)
]

pub compound_depth-flat :
    (depth_of : Str → List Str → Result Error (ℕ × List Str)) (c : Cohort) (name : Str)
    (visited : List Str)
    → is_compound c.type ≡ false
    → compound_depth depth_of c name visited ≡ ok (0, visited)
unfolding compound_depth
compound_depth-flat depth_of c name visited h = rw h

keep_self :
    (n : Str) (xs : List Str) → contains xs n ≡ false → keep (λ v. not (v == n)) (n ∷ xs) ≡ xs
unfolding keep
keep_self n xs h = ground (arith, keep_absent n xs)

compound_depth-Restores :
    (depth_of : Str → List Str → Result Error (ℕ × List Str)) (c : Cohort) (name : Str)
    (visited : List Str) (d : ℕ) (left : List Str)
    → Restores depth_of
    → contains visited name ≡ false
    → compound_depth depth_of c name visited ≡ ok (d, left)
    → left ≡ visited
compound_depth-Restores depth_of c name visited d left restores new h =
    elim (Bool-cases (is_compound c.type)) [
      | inl isc ↦
          let (expr, deepest, seen, e, loop, depth, out) =
            compound_depth-eq-ok depth_of c name visited d left isc h in
          let (kept, le, each) =
            max_child_bound depth_of restores expr.operands (name ∷ visited) 0 deepest seen loop in
          out ∙ ap (keep (λ v. not (v == name))) kept ∙ keep_self name visited new
      | inr flat ↦ cc (compound_depth-flat depth_of c name visited flat)
    ]

-- `computeDepth` removes from the map what it put in.
pub compute_depth-Restores :
    (fuel : ℕ) (cohorts : List Cohort) → Restores (compute_depth fuel cohorts)
unfolding compute_depth
compute_depth-Restores zero cohorts name visited d left h = cc
compute_depth-Restores (suc fuel) cohorts name visited d left h =
    let (c, new, found, body) = compute_depth-eq-ok fuel cohorts name visited d left h in
    compound_depth-Restores (compute_depth fuel cohorts) c name visited d left
      (compute_depth-Restores fuel cohorts) new body

-- The cohorts that are not yet on the path: they run out before the fuel does.
abbrev pub unvisited : List Cohort → List Str → ℕ
unvisited cohorts visited = length (keep (λ (c : Cohort). not (contains visited c.name)) cohorts)

unvisited-le :
    (cohorts : List Cohort) (name : Str) (visited : List Str)
    → unvisited cohorts (name ∷ visited) ≤ unvisited cohorts visited
unfolding keep contains
unvisited-le [] name visited = omega arith
unvisited-le (c ∷ cohorts) name visited = ground (arith, unvisited-le cohorts name visited)

unvisited-lt :
    (cohorts : List Cohort) (name : Str) (visited : List Str) (c : Cohort)
    → named cohorts name ≡ some c
    → contains visited name ≡ false
    → unvisited cohorts (name ∷ visited) < unvisited cohorts visited
unfolding named keep contains
unvisited-lt [] name visited c found new = cc
unvisited-lt (b ∷ cohorts) name visited c found new = elim (dec_str b.name name) [
  | yes e ↦ ground (arith, unvisited-le cohorts name visited, ap (contains visited) e)
  | no ne ↦ ground (arith, unvisited-lt cohorts name visited c)
]

max_child-total :
    (depth_of : Str → List Str → Result Error (ℕ × List Str)) (operands visited : List Str)
    (deepest : ℕ)
    → Restores depth_of
    → ((op : Str) → depth_of op visited ≢ err out_of_fuel)
    → max_child depth_of operands visited deepest ≢ err out_of_fuel
unfolding max_child
max_child-total depth_of [] visited deepest restores runs h = cc
max_child-total depth_of (op ∷ operands) visited deepest restores runs h =
    go (λ n. max_child-total depth_of operands visited (max deepest n) restores runs)
      (depth_of op visited) refl h
  where
    go :
        ((n : ℕ) → max_child depth_of operands visited (max deepest n) ≢ err out_of_fuel)
        → (m : Result Error (ℕ × List Str)) → depth_of op visited ≡ m
        → (m >>= λ r. max_child depth_of operands r.1 (max deepest r.0)) ≡ err out_of_fuel
        → ⊥
    go rest (ok (n, seen)) e k = rest n (
        subst (λ v. max_child depth_of operands v (max deepest n) ≡ err out_of_fuel)
          (restores op visited n seen e) k)
    go rest (err x) e k = runs op (e ∙ k)

compound_depth-total :
    (depth_of : Str → List Str → Result Error (ℕ × List Str)) (c : Cohort) (name : Str)
    (visited : List Str)
    → Restores depth_of
    → ((op : Str) → depth_of op (name ∷ visited) ≢ err out_of_fuel)
    → compound_depth depth_of c name visited ≢ err out_of_fuel
unfolding compound_depth operands_of
compound_depth-total depth_of c name visited restores runs h =
    elim (Bool-cases (is_compound c.type)) [
      | inr flat ↦ ground arith
      | inl isc ↦ elim (Option-cases c.compound) [
        | inl nil ↦ ground arith
        | inr (expr, e) ↦
            ground (arith, max_child-total depth_of expr.operands (name ∷ visited) 0 restores runs)
      ]
    ]

-- With more fuel than there are cohorts off the path, `computeDepth` does not run out of it: the
-- recursion ends, in a depth or in one of the program's errors.
pub compute_depth-total :
    (fuel : ℕ) (cohorts : List Cohort) (name : Str) (visited : List Str)
    → unvisited cohorts visited < fuel
    → compute_depth fuel cohorts name visited ≢ err out_of_fuel
unfolding compute_depth
compute_depth-total zero cohorts name visited le h = absurd (omega arith)
compute_depth-total (suc fuel) cohorts name visited le h =
    elim (Bool-cases (contains visited name)) [
      | inl seen ↦ ground arith
      | inr new ↦ elim (Option-cases (named cohorts name)) [
        | inl unknown ↦ ground arith
        | inr (c, found) ↦
            compound_depth-total (compute_depth fuel cohorts) c name visited
              (compute_depth-Restores fuel cohorts)
              (λ op.
                compute_depth-total fuel cohorts op (name ∷ visited)
                  (omega (arith, unvisited-lt cohorts name visited c found new)))
              (ground arith)
      ]
    ]
