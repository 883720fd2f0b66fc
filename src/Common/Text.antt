-- ===== src/Common/Text.antt =====
-- Go strings as lists of bytes: equality, and the functions of `strings` that the program calls.
use Prim.Native.Char.{code}
use Prim.Native.String.{String}
use Prim.Native.Nat.{ℕ, zero, suc, ◌+◌, compare, Ordering}
use mathlib.Core.Path.{◌≡◌, refl}
use mathlib.Core.Bool.{Bool, true, false, ◌&&◌}
use mathlib.Core.List.{List, [], ◌∷◌, ◌++◌, reverse}
use native.Mathlib.Omega.{arith}
use native.Mathlib.Decide.{ℕ_discrete}

abbrev pub Str : Type 0
Str = List ℕ

-- The bytes of a literal.
abbrev pub str : String → Str
str String.[] = []
str (String.◌∷◌ c s) = code c ∷ str s

Str-discrete : Discrete Str
unfolding ℕ_discrete
Str-discrete = hlevel ℕ_discrete

unfoldable pub dec_str : Discrete Str
unfolding Str-discrete ℕ_discrete
dec_str = Str-discrete

-- A decision as a Boolean test.
abbrev pub test {ℓ} : {P : Type ℓ} → Dec P → Bool
test (yes _) = true
test (no _) = false

infix 50 ◌==◌
abbrev pub ◌==◌ : Str → Str → Bool
s == t = test (dec_str s t)

abbrev pub byte_eq : ℕ → ℕ → Bool
byte_eq a b = test (ℕ_discrete a b)

abbrev pub leb : ℕ → ℕ → Bool
leb a b = elim (compare a b) [ Ordering.gt ↦ false | _ ↦ true ]

-- `strings.HasPrefix`, with the prefix first.
unfoldable pub has_prefix : Str → Str → Bool
unfolding ℕ_discrete
has_prefix [] s = true
has_prefix (c ∷ p) [] = false
has_prefix (c ∷ p) (d ∷ s) = byte_eq c d && has_prefix p s

-- `s[n:]` for `n` at most the length of `s`.
abbrev pub drop : ℕ → Str → Str
drop zero s = s
drop (suc n) [] = []
drop (suc n) (c ∷ s) = drop n s

abbrev pub size : Str → ℕ
size [] = 0
size (c ∷ s) = suc (size s)

-- `strings.HasSuffix`, with the suffix first.
unfoldable pub has_suffix : Str → Str → Bool
unfolding has_prefix
has_suffix p s = has_prefix (reverse p) (reverse s)

-- `s[:len(s)-1]`
abbrev pub drop_last : Str → Str
drop_last [] = []
drop_last (c ∷ []) = []
drop_last (c ∷ d ∷ s) = c ∷ drop_last (d ∷ s)

-- `strings.Contains`, with the part first.
unfoldable pub contains_part : Str → Str → Bool
unfolding has_prefix
contains_part p [] = has_prefix p []
contains_part p (c ∷ s) = elim (has_prefix p (c ∷ s)) [ true ↦ true | false ↦ contains_part p s ]

-- A text that has the prefix is the prefix and the rest.
pub has_prefix-append_drop : (p s : Str) → has_prefix p s ≡ true → s ≡ p ++ drop (size p) s
unfolding has_prefix
has_prefix-append_drop [] s h = refl
has_prefix-append_drop (c ∷ p) [] h = cc
has_prefix-append_drop (c ∷ p) (d ∷ s) h = ground (arith, has_prefix-append_drop p s)

pub has_prefix-append : (p s : Str) → has_prefix p (p ++ s) ≡ true
unfolding has_prefix
has_prefix-append [] s = refl
has_prefix-append (c ∷ p) s = ground (arith, has_prefix-append p s)

pub drop-append : (p s : Str) → drop (size p) (p ++ s) ≡ s
drop-append [] s = refl
drop-append (c ∷ p) s = drop-append p s

pub size-append : (s t : Str) → size (s ++ t) ≡ size s + size t
size-append [] t = omega arith
size-append (c ∷ s) t = omega (arith, size-append s t)

pub ==_refl : (s : Str) → (s == s) ≡ true
==_refl s = ground arith
