-- ===== src/Rbac/Registry/Operands.antt =====
-- The set operation of a compound cohort on the sets of its operands, sprout by sprout.
use mathlib.Core.Path.{◌≡◌, refl, ap}
use mathlib.Core.Logic.{inl, inr, ⊎_elim, ◌↔◌}
use mathlib.Core.Bool.{Bool, true, false}
use mathlib.Core.List.{List, [], ◌∷◌, Memᴰ}
use mathlib.Core.List.Memᴰ
use native.Mathlib.Omega.{arith}
use grlx.Common.{Str, contains, Result, ok, Bool-cases, Memᴰ-cons, All}
use grlx.Rbac.Error.{Error}
use grlx.Rbac.Cohort.{Operator, and, or, except}
use grlx.Rbac.Cohort.Members.{combine_bool}

-- The sets of the operands, one for each.
pub data Each (answer : Str → Result Error (List Str)) : List Str → List (List Str) → Type 0 where
  nil : Each answer [] []
  cons :
      {o : Str} {operands : List Str} {set : List Str} {sets : List (List Str)}
      → answer o ≡ ok set
      → Each answer operands sets
      → Each answer (o ∷ operands) (set ∷ sets)

-- Membership of a sprout in a combination, from that in the sets of the operands.
abbrev pub Meaning : Operator → Str → List (List Str) → Type 0
Meaning op x [] = ⊥
Meaning and x (first ∷ rest) = All (λ set. contains set x ≡ true) (first ∷ rest)
Meaning or x (first ∷ rest) = (set : List Str) × Memᴰ set (first ∷ rest) × (contains set x ≡ true)
Meaning except x (first ∷ rest) =
    (contains first x ≡ true) × All (λ set. contains set x ≡ false) rest
Meaning (Operator.unknown op) x (first ∷ rest) = contains first x ≡ true

-- The loop, on one sprout.
unfoldable pub combined : Operator → Bool → Str → List (List Str) → Bool
combined op b x [] = b
combined op b x (set ∷ sets) = combined op (combine_bool op b (contains set x)) x sets

pub combined-false-and : (x : Str) (sets : List (List Str)) → combined and false x sets ≡ false
unfolding combined
combined-false-and x [] = refl
combined-false-and x (set ∷ sets) = combined-false-and x sets

pub combined-and :
    (x : Str) (sets : List (List Str))
    → (combined and true x sets ≡ true) ↔ All (λ set. contains set x ≡ true) sets
unfolding combined
combined-and x [] = (λ _. tt, λ _. refl)
combined-and x (set ∷ sets) = ground (arith, combined-and x sets, combined-false-and x sets)

pub combined-true-or : (x : Str) (sets : List (List Str)) → combined or true x sets ≡ true
unfolding combined
combined-true-or x [] = refl
combined-true-or x (set ∷ sets) = combined-true-or x sets

pub combined-or :
    (x : Str) (sets : List (List Str))
    → (combined or false x sets ≡ true)
      ↔ ((set : List Str) × Memᴰ set sets × (contains set x ≡ true))
unfolding combined
combined-or x [] = (λ e. absurd (cc), λ w. absurd (Memᴰ.not-nil w.1))
combined-or x (set ∷ sets) = elim (Bool-cases (contains set x)) [
  | inl h ↦ rw (h, combined-true-or) (λ _. (set, Memᴰ.head refl, h), λ _. refl)
  | inr h ↦ rw h (
    λ e. let (s, m, i) = (combined-or x sets).0 e in (s, Memᴰ.tail m, i),
    λ (s, m, i).
        ⊎_elim (λ e. absurd (ground (arith, ap (λ q. contains q x) e)))
          (λ k. (combined-or x sets).1 (s, k, i)) ((Memᴰ-cons s set sets).0 m),
  )
]

pub combined-false-except :
    (x : Str) (sets : List (List Str)) → combined except false x sets ≡ false
unfolding combined
combined-false-except x [] = refl
combined-false-except x (set ∷ sets) = combined-false-except x sets

pub combined-except :
    (x : Str) (sets : List (List Str))
    → (combined except true x sets ≡ true) ↔ All (λ set. contains set x ≡ false) sets
unfolding combined
combined-except x [] = (λ _. tt, λ _. refl)
combined-except x (set ∷ sets) =
    ground (arith, combined-except x sets, combined-false-except x sets)

pub combined-unknown :
    (op : Str) (b : Bool) (x : Str) (sets : List (List Str))
    → combined (Operator.unknown op) b x sets ≡ b
unfolding combined
combined-unknown op b x [] = refl
combined-unknown op b x (set ∷ sets) = combined-unknown op b x sets

pub combined_iff :
    (op : Operator) (x : Str) (first : List Str) (rest : List (List Str))
    → (combined op (contains first x) x rest ≡ true) ↔ Meaning op x (first ∷ rest)
unfolding combined contains
combined_iff and x first rest = elim (Bool-cases (contains first x)) [
  | inl h ↦ ground (arith, combined-and x rest)
  | inr h ↦ ground (arith, combined-false-and x rest)
]
combined_iff or x first rest = combined-or x (first ∷ rest)
combined_iff except x first rest = elim (Bool-cases (contains first x)) [
  | inl h ↦ ground (arith, combined-except x rest)
  | inr h ↦ ground (arith, combined-false-except x rest)
]
combined_iff (Operator.unknown op) x first rest = rw combined-unknown (λ e. e, λ e. e)

pub visit_mono :
    (name : Str) (visited fewer : List Str)
    → ((x : Str) → contains visited x ≡ false → contains fewer x ≡ false)
    → (x : Str) → contains (name ∷ visited) x ≡ false
    → contains (name ∷ fewer) x ≡ false
unfolding contains
visit_mono name visited fewer sub x h = ground (arith, sub x)

pub Each-mono :
    (f g : Str → Result Error (List Str)) {operands : List Str} {sets : List (List Str)}
    → ((o : Str) (ms : List Str) → f o ≡ ok ms → g o ≡ ok ms)
    → Each f operands sets
    → Each g operands sets
Each-mono f g agree nil = nil
Each-mono f g agree (cons e each) = cons (agree _ _ e) (Each-mono f g agree each)
