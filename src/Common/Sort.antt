-- ===== src/Common/Sort.antt =====
-- `sort.Strings`: by bytes, as an insertion sort.
use Prim.Native.Nat.{compare, Ordering}
use mathlib.Core.Path.{◌≡◌, refl, ◌∙◌, subst}
use mathlib.Core.Logic.{inl, inr}
use mathlib.Core.Bool.{Bool, true, false}
use mathlib.Core.List.{List, [], ◌∷◌}
use native.Mathlib.Omega.{arith}
use grlx.Common.Text.{Str}
use grlx.Common.Sets.{if◌then◌else◌, contains, Bool-cases}

-- `s <= t`
unfoldable pub str_leb : Str → Str → Bool
str_leb [] t = true
str_leb (c ∷ s) [] = false
str_leb (c ∷ s) (d ∷ t) = elim (compare c d) [
  | Ordering.lt ↦ true
  | Ordering.eq ↦ str_leb s t
  | Ordering.gt ↦ false
]

unfoldable pub put : Str → List Str → List Str
unfolding str_leb
put s [] = s ∷ []
put s (x ∷ xs) = let rest = put s xs in if str_leb s x then s ∷ x ∷ xs else x ∷ rest

unfoldable pub sort_strings : List Str → List Str
unfolding put
sort_strings [] = []
sort_strings (x ∷ xs) = put x (sort_strings xs)

contains-put : (s : Str) (xs : List Str) (a : Str) → contains (put s xs) a ≡ contains (s ∷ xs) a
unfolding contains put
contains-put s [] a = refl
contains-put s (x ∷ xs) a = elim (Bool-cases (str_leb s x)) [
  | inl e ↦ ground arith
  | inr e ↦ ground (arith, contains-put s xs a)
]

-- Sorting keeps what is in the list.
pub contains-sort_strings : (xs : List Str) (a : Str) → contains (sort_strings xs) a ≡ contains xs a
unfolding contains sort_strings
contains-sort_strings [] a = refl
contains-sort_strings (x ∷ xs) a =
    contains-put x (sort_strings xs) a ∙ ground (arith, contains-sort_strings xs a)

-- No text stands behind one that it is before.
str_leb-total : (s t : Str) → str_leb s t ≡ false → str_leb t s ≡ true
unfolding str_leb
str_leb-total [] t h = absurd (cc)
str_leb-total (c ∷ s) [] h = refl
str_leb-total (c ∷ s) (d ∷ t) h = ground (arith, str_leb-total s t)

abbrev pub IsSorted : List Str → Type 0
IsSorted [] = Unit
IsSorted (x ∷ []) = Unit
IsSorted (x ∷ y ∷ xs) = (str_leb x y ≡ true) × IsSorted (y ∷ xs)

tail-IsSorted : (x : Str) (xs : List Str) → IsSorted (x ∷ xs) → IsSorted xs
tail-IsSorted x [] h = tt
tail-IsSorted x (y ∷ xs) h = h.1

put-behind : (s y : Str) (xs : List Str) → str_leb s y ≡ false → put s (y ∷ xs) ≡ y ∷ put s xs
unfolding put
put-behind s y xs h = rw h refl

put-IsSorted : (s : Str) (xs : List Str) → IsSorted xs → IsSorted (put s xs)
unfolding put
put-IsSorted s [] h = tt
put-IsSorted s (x ∷ []) h = elim (Bool-cases (str_leb s x)) [
  | inl e ↦ rw e (e, tt)
  | inr e ↦ rw e (str_leb-total s x e, tt)
]
put-IsSorted s (x ∷ y ∷ xs) (le, h) = elim (Bool-cases (str_leb s x)) [
  | inl e ↦ rw e (e, (le, h))
  | inr e ↦ elim (Bool-cases (str_leb s y)) [
    | inl f ↦ rw (e, f) (str_leb-total s x e, (f, h))
    | inr f ↦
        (let below = subst IsSorted (put-behind s y xs f) (put-IsSorted s (y ∷ xs) h) in
          rw (e, f) (le, below))
  ]
]

pub sort_strings-IsSorted : (xs : List Str) → IsSorted (sort_strings xs)
unfolding sort_strings
sort_strings-IsSorted [] = tt
sort_strings-IsSorted (x ∷ xs) = put-IsSorted x (sort_strings xs) (sort_strings-IsSorted xs)
