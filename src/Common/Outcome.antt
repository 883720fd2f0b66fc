-- ===== src/Common/Outcome.antt =====
-- Results of fallible code.
use mathlib.Core.Path.{◌≡◌, refl}

-- Go's `(value, error)`: an error is the sentinel that `errors.Is` finds; message texts are left out.
pub data Result {ℓ κ} (E : Type κ) (A : Type ℓ) : Type (ℓ ⊔ κ) where
  ok : A → Result E A
  err : E → Result E A

infixl 5 ◌>>=◌
abbrev pub ◌>>=◌ {ι ℓ κ} :
    {E : Type ι} {A : Type ℓ} {B : Type κ} → Result E A → (A → Result E B) → Result E B
err failure >>= next = err failure
ok value >>= next = next value

-- A check that returns an error only, before the rest of the function.
infixl 5 ◌>>◌
abbrev pub ◌>>◌ {ι κ} : {E : Type ι} {B : Type κ} → Result E (Unit {0}) → Result E B → Result E B
check >> rest = check >>= λ passed. rest

-- Inversion of a bind that succeeds.
pub >>=-eq-ok {ι ℓ κ} :
    {E : Type ι} {A : Type ℓ} {B : Type κ} (first : Result E A) (next : A → Result E B) {result : B}
    → (first >>= next) ≡ ok result
    → (value : A) × (first ≡ ok value) × (next value ≡ ok result)
>>=-eq-ok (err failure) next h = cc
>>=-eq-ok (ok value) next h = (value, refl, h)

pub ok-ne-err {ℓ κ} : {E : Type κ} {A : Type ℓ} (a : A) (e : E) → ok a ≡ err e → ⊥
ok-ne-err a e h = cc
