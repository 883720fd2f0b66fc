-- ===== src/Common/Dict.antt =====
-- A Go map with text keys, as an association list.
use mathlib.Core.Path.{◌≡◌, refl}
use mathlib.Core.Option.{Option, none, some}
use mathlib.Core.List.{List, [], ◌∷◌}
use native.Mathlib.Omega.{arith}
use grlx.Common.Text.{Str, dec_str, ◌==◌}
use grlx.Common.Sets.{if◌then◌else◌}

module _ {ℓ} {V : Type ℓ} where
  -- `v, ok := m[k]`
  unfoldable pub lookup : Str → List (Str × V) → Option V
  unfolding dec_str
  lookup key [] = none
  lookup key ((name, value) ∷ entries) = if name == key then some value else lookup key entries

  -- `delete(m, k)`
  unfoldable pub erase : Str → List (Str × V) → List (Str × V)
  unfolding dec_str
  erase key [] = []
  erase key ((name, value) ∷ entries) =
      let others = erase key entries in if name == key then others else (name, value) ∷ others

  pub lookup-erase :
      (erased key : Str) (entries : List (Str × V))
      → lookup key (erase erased entries) ≡ (if erased == key then none else lookup key entries)
  unfolding lookup erase
  lookup-erase erased key [] = ground arith
  lookup-erase erased key ((name, value) ∷ entries) =
      ground (arith, lookup-erase erased key entries)

  -- `m[k] = v`, in the place of an entry with the key or at the end.
  unfoldable pub insert : Str → V → List (Str × V) → List (Str × V)
  unfolding dec_str
  insert key new [] = (key, new) ∷ []
  insert key new ((name, value) ∷ entries) =
      let later = insert key new entries in
      if name == key then (key, new) ∷ entries else (name, value) ∷ later

  pub lookup-insert :
      (set key : Str) (new : V) (entries : List (Str × V))
      → lookup key (insert set new entries) ≡ (if set == key then some new else lookup key entries)
  unfolding lookup insert
  lookup-insert set key new [] = refl
  lookup-insert set key new ((name, value) ∷ entries) =
      ground (arith, lookup-insert set key new entries)
