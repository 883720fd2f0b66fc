-- ===== src/Pki/Enroll/Names.antt =====
-- Join tokens and the names of enrolled sprouts: `splitJoinToken` and `resolveEnrollSproutID` of
-- internal/pki/enroll.go.
use Prim.Native.Nat.{ℕ, zero, suc, ◌+◌, ◌/◌, ◌%◌}
use mathlib.Core.Bool.{Bool, ◌||◌, not}
use mathlib.Core.Option.{Option, none, some}
use mathlib.Core.List.{[], ◌∷◌, ◌++◌, map}
use grlx.Common.{Str, str, ◌==◌, byte_eq, has_prefix, drop, Result, ok, err, if◌then◌else◌}
use grlx.Common.Table.{Table}
use grlx.Pki.SproutId.{ltb, is_valid_sprout_id}
use grlx.Pki.Keys.{Error, sprout_id_invalid, too_many_sprouts, nkey_key, dec_key, nkey_exists}

-- What is before the first `.`, and what is behind it.
unfoldable pub cut_at_dot : Str → Option (Str × Str)
cut_at_dot [] = none
cut_at_dot (c ∷ s) =
    let rest = cut_at_dot s in
    if byte_eq c b'.'
    then some ([], s)
    else elim rest [ none ↦ none | some (before, after) ↦ some (c ∷ before, after) ]

unfoldable pub both_halves : Str × Str → Option (Str × Str)
both_halves (key_id, secret) = if key_id == [] || secret == [] then none else some (key_id, secret)

-- `splitJoinToken`
unfoldable pub split_join_token : Str → Option (Str × Str)
unfolding cut_at_dot both_halves
split_join_token token = elim (cut_at_dot token) [ none ↦ none | some halves ↦ both_halves halves ]

-- `strings.ReplaceAll(s, "_", "-")`, and `strings.TrimPrefix(s, "-")`.
pub dashes : Str → Str
dashes = map (λ c. if byte_eq c b'_' then b'-' else c)

pub trim_dash : Str → Str
unfolding has_prefix
trim_dash s = if has_prefix (str "-") s then drop 1 s else s

-- `strconv.Itoa(i)` for `i` below 100.
pub itoa : ℕ → Str
itoa i = if ltb i 10 then (b'0' + i) ∷ [] else (b'0' + i / 10) ∷ (b'0' + i % 10) ∷ []

-- The name that a hostname stands for, with `strings.ToLower` as a parameter, since it reads the
-- tables of Unicode.
unfoldable pub enroll_base : (Str → Str) → Str → Str
unfolding dashes trim_dash
enroll_base to_lower hostname = trim_dash (dashes (to_lower hostname))

-- The name with a number.
unfoldable pub numbered : Str → ℕ → Str
unfolding itoa
numbered base i = base ++ b'_' ∷ itoa i

module _ (t : Table dec_key nkey_key) where
  open t use {State}

  -- `!registered || matches`
  unfoldable pub is_open : State → Str → Str → Str → Bool
  unfolding nkey_exists
  is_open rows tenant_id id nkey =
      let (registered, matches) = nkey_exists t rows tenant_id id nkey in not registered || matches

  -- The loop of `resolveEnrollSproutID`, for as many numbers from `i` on.
  unfoldable pub try_numbers : ℕ → ℕ → State → Str → Str → Str → Result Error Str
  unfolding is_open numbered
  try_numbers zero i rows tenant_id base nkey = err too_many_sprouts
  try_numbers (suc k) i rows tenant_id base nkey =
      let rest = try_numbers k (suc i) rows tenant_id base nkey in
      if is_open rows tenant_id (numbered base i) nkey then ok (numbered base i) else rest

  -- `resolveEnrollSproutID`
  unfoldable pub resolve_enroll_sprout_id : (Str → Str) → State → Str → Str → Str → Result Error Str
  unfolding enroll_base try_numbers is_open
  resolve_enroll_sprout_id to_lower rows tenant_id hostname nkey =
      let base = enroll_base to_lower hostname in
      if not (is_valid_sprout_id base)
      then err sprout_id_invalid
      else if is_open rows tenant_id base nkey
      then ok base
      else try_numbers 99 1 rows tenant_id base nkey
