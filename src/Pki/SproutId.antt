-- ===== src/Pki/SproutId.antt =====
-- Sprout and tenant identifiers: internal/pki/pki.go, tenant.go.
use Prim.Native.Nat.{ℕ, compare, Ordering}
use mathlib.Core.Bool.{Bool, true, false, ◌&&◌, ◌||◌, not}
use mathlib.Core.List.{[], ◌∷◌}
use grlx.Common.{Str, str, ◌==◌, byte_eq, has_prefix, has_suffix, size, if◌then◌else◌}

abbrev pub ltb : ℕ → ℕ → Bool
ltb a b = elim (compare a b) [ Ordering.lt ↦ true | _ ↦ false ]

abbrev pub between : ℕ → ℕ → ℕ → Bool
between lo hi c = not (ltb c lo) && not (ltb hi c)

-- `[0-9a-z\.]`, and `[-0-9_a-z\.]`
pub is_first_byte : ℕ → Bool
is_first_byte c = between b'0' b'9' c || between b'a' b'z' c || byte_eq c b'.'

pub is_next_byte : ℕ → Bool
unfolding is_first_byte
is_next_byte c = is_first_byte c || byte_eq c b'-' || byte_eq c b'_'

pub all_bytes : (ℕ → Bool) → Str → Bool
all_bytes p [] = true
all_bytes p (c ∷ s) = p c && all_bytes p s

-- `^[0-9a-z\.][-0-9_a-z\.]*$`
pub sprout_matcher : Str → Bool
unfolding is_first_byte is_next_byte all_bytes
sprout_matcher [] = false
sprout_matcher (c ∷ s) = is_first_byte c && all_bytes is_next_byte s

-- `IsValidSproutID`
unfoldable pub is_valid_sprout_id : Str → Bool
unfolding sprout_matcher has_prefix has_suffix
is_valid_sprout_id id =
    if ltb 253 (size id)
    then false
    else if has_prefix (str "_") id
    then false
    else if has_prefix (str "-") id
    then false
    else if has_suffix (str ".") id
    then false
    else if not (sprout_matcher id)
    then false
    else true

is_tenant_byte : ℕ → Bool
is_tenant_byte c =
    between b'0' b'9' c
    || between b'A' b'Z' c
    || between b'a' b'z' c
    || byte_eq c b'_'
    || byte_eq c b'-'

-- `IsValidTenantID`: `^[0-9A-Za-z_-]{1,191}$`
unfoldable pub is_valid_tenant_id : Str → Bool
unfolding is_tenant_byte all_bytes
is_valid_tenant_id id = not (id == []) && not (ltb 191 (size id)) && all_bytes is_tenant_byte id

-- `strings.SplitN(id, "_", 2)[0]`
unfoldable pub base_of : Str → Str
base_of [] = []
base_of (c ∷ s) = let rest = base_of s in if byte_eq c b'_' then [] else c ∷ rest

-- `len(strings.SplitN(id, "_", 2)) > 1`
unfoldable pub has_underscore : Str → Bool
has_underscore [] = false
has_underscore (c ∷ s) = byte_eq c b'_' || has_underscore s
