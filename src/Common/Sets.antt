-- ===== src/Common/Sets.antt =====
-- Lists by position and membership, and `map[string]bool` used as a set: the list of the names that
-- are set.
use Prim.Native.Nat.{ℕ, suc, ◌+◌, ◌≤◌, ◌<◌}
use mathlib.Core.Path.{◌≡◌, refl, ap}
use mathlib.Core.Logic.{◌⊎◌, inl, inr, ◌↔◌, ⊎_elim}
use mathlib.Core.Bool.{Bool, true, false, not, ◌||◌, ◌&&◌}
use mathlib.Core.Option.{Option, none, some}
use mathlib.Core.List.{List, [], ◌∷◌, ◌++◌, Memᴰ}
use mathlib.Core.List.Memᴰ
use native.Mathlib.Omega.{arith}
use grlx.Common.Text.{Str, dec_str, test, ◌==◌}

pub Bool-cases : (b : Bool) → (b ≡ true) ⊎ (b ≡ false)
Bool-cases true = inl refl
Bool-cases false = inr refl

pub Option-cases {ℓ} : {A : Type ℓ} (o : Option A) → (o ≡ none) ⊎ ((a : A) × (o ≡ some a))
Option-cases none = inl refl
Option-cases (some a) = inr (a, refl)

pub not_true : (b : Bool) → ¬ (b ≡ true) → b ≡ false
not_true true h = absurd (h refl)
not_true false h = refl

infix 1 if◌then◌else◌
abbrev pub if◌then◌else◌ {ℓ} : {A : Type ℓ} → Bool → A → A → A
if true then x else y = x
if false then x else y = y

module _ {ℓ} {A : Type ℓ} where
  abbrev pub length : List A → ℕ
  length [] = 0
  length (x ∷ xs) = suc (length xs)

  -- The elements that pass a test, in order.
  unfoldable pub keep : (A → Bool) → List A → List A
  keep p [] = []
  keep p (x ∷ xs) = let rest = keep p xs in if p x then x ∷ rest else rest

  abbrev pub All {κ} : (A → Type κ) → List A → Type κ
  All P [] = Unit
  All P (x ∷ xs) = P x × All P xs

  pub Memᴰ-cons : (a x : A) (xs : List A) → Memᴰ a (x ∷ xs) ↔ ((a ≡ x) ⊎ Memᴰ a xs)
  Memᴰ-cons a x xs = (Memᴰ.cases_cons, ⊎_elim Memᴰ.head Memᴰ.tail)

  pub Memᴰ-append : (a : A) (xs ys : List A) → Memᴰ a (xs ++ ys) ↔ (Memᴰ a xs ⊎ Memᴰ a ys)
  Memᴰ-append a xs ys = (Memᴰ.append_cases xs, ⊎_elim (Memᴰ.append_left _) (Memᴰ.append_right xs))

  pub length-append : (xs ys : List A) → length (xs ++ ys) ≡ length xs + length ys
  length-append [] ys = omega arith
  length-append (x ∷ xs) ys = omega (arith, length-append xs ys)

module _ {ℓ} {A : Type ℓ} (p : A → Bool) where
  pub mem-keep : (a : A) (xs : List A) → Memᴰ a (keep p xs) ↔ (Memᴰ a xs × (p a ≡ true))
  unfolding keep
  mem-keep a [] = (λ m. absurd (Memᴰ.not-nil m), λ m. m.0)
  mem-keep a (x ∷ xs) = elim (Bool-cases (p x)) [
    | inl h ↦ rw h (
      λ m.
          ⊎_elim (λ e. (Memᴰ.head e, rw e h))
            (λ n. (Memᴰ.tail ((mem-keep a xs).0 n).0, ((mem-keep a xs).0 n).1))
            ((Memᴰ-cons a x (keep p xs)).0 m),
      λ m.
          ⊎_elim (λ e. Memᴰ.head e) (λ n. Memᴰ.tail ((mem-keep a xs).1 (n, m.1)))
            ((Memᴰ-cons a x xs).0 m.0),
    )
    | inr h ↦ ground (arith, mem-keep a xs, Memᴰ-cons a x xs, ap p)
  ]

  pub keep-All : (xs : List A) → All (λ x. p x ≡ true) xs → keep p xs ≡ xs
  unfolding keep
  keep-All [] h = refl
  keep-All (x ∷ xs) h = rw (h.0, keep-All xs h.1)

  pub keep_none : (xs : List A) → ((x : A) → p x ≡ false) → keep p xs ≡ []
  unfolding keep
  keep_none [] h = refl
  keep_none (x ∷ xs) h = rw (h x, keep_none xs h)

module _ {ℓ κ} {A : Type ℓ} (P : A → Type κ) where
  pub All-mem : (a : A) (xs : List A) → All P xs → Memᴰ a xs → P a
  All-mem a [] h m = absurd (Memᴰ.not-nil m)
  All-mem a (x ∷ xs) h m = ⊎_elim (λ e. rw e h.0) (All-mem a xs h.1) ((Memᴰ-cons a x xs).0 m)

  pub All-of_mem : (xs : List A) → ((a : A) → Memᴰ a xs → P a) → All P xs
  All-of_mem [] h = tt
  All-of_mem (x ∷ xs) h = (h x (Memᴰ.head refl), All-of_mem xs (λ a m. h a (Memᴰ.tail m)))

-- `m[name]`
unfoldable pub contains : List Str → Str → Bool
unfolding dec_str
contains [] a = false
contains (x ∷ xs) a = test (dec_str a x) || contains xs a

pub contains_iff : (xs : List Str) (a : Str) → (contains xs a ≡ true) ↔ Memᴰ a xs
unfolding contains
contains_iff [] a = (λ e. absurd (cc), λ m. absurd (Memᴰ.not-nil m))
contains_iff (x ∷ xs) a = ground (arith, contains_iff xs a, Memᴰ-cons a x xs)

pub contains-append :
    (xs ys : List Str) (a : Str) → contains (xs ++ ys) a ≡ (contains xs a || contains ys a)
unfolding contains
contains-append [] ys a = refl
contains-append (x ∷ xs) ys a = ground (arith, contains-append xs ys a)

pub contains-keep :
    (p : Str → Bool) (xs : List Str) (a : Str) → contains (keep p xs) a ≡ (contains xs a && p a)
unfolding contains keep
contains-keep p [] a = refl
contains-keep p (x ∷ xs) a = elim (dec_str a x) [
  | yes e ↦ elim (Bool-cases (p x)) [
    | inl h ↦ ground (arith, contains-keep p xs a, ap p e)
    | inr h ↦ ground (arith, contains-keep p xs a, ap p e)
  ]
  | no ne ↦ ground (arith, contains-keep p xs a)
]

-- Size of a list without some of its elements.
pub length-keep-le {ℓ} : {A : Type ℓ} (p : A → Bool) (xs : List A) → length (keep p xs) ≤ length xs
unfolding keep
length-keep-le p [] = omega arith
length-keep-le p (x ∷ xs) = ground (arith, length-keep-le p xs)

pub keep_absent :
    (n : Str) (xs : List Str) → contains xs n ≡ false → keep (λ v. not (v == n)) xs ≡ xs
unfolding contains keep
keep_absent n [] h = refl
keep_absent n (x ∷ xs) h = ground (arith, keep_absent n xs)

-- How many names of a list are not in another.
abbrev pub remaining : List Str → List Str → ℕ
remaining names seen = length (keep (λ n. not (contains seen n)) names)

remaining-le :
    (names : List Str) (n : Str) (seen : List Str)
    → remaining names (n ∷ seen) ≤ remaining names seen
unfolding keep contains
remaining-le [] n seen = omega arith
remaining-le (m ∷ names) n seen = ground (arith, remaining-le names n seen)

pub remaining-lt :
    (names : List Str) (n : Str) (seen : List Str)
    → contains names n ≡ true
    → contains seen n ≡ false
    → remaining names (n ∷ seen) < remaining names seen
unfolding keep contains
remaining-lt [] n seen found new = cc
remaining-lt (m ∷ names) n seen found new = elim (dec_str m n) [
  | yes e ↦ ground (arith, remaining-le names n seen, ap (contains seen) e)
  | no ne ↦ ground (arith, remaining-lt names n seen)
]

pub remaining_mono :
    (names seen later : List Str)
    → ((n : Str) → contains seen n ≡ true → contains later n ≡ true)
    → remaining names later ≤ remaining names seen
unfolding keep
remaining_mono [] seen later more = omega arith
remaining_mono (m ∷ names) seen later more =
    ground (arith, remaining_mono names seen later more, more m)

pub remaining-le_length : (names seen : List Str) → remaining names seen ≤ length names
remaining-le_length names seen = length-keep-le (λ n. not (contains seen n)) names
