-- ===== src/Rbac/Config/Unique.antt =====
-- internal/rbac/config.go: `ValidateUserUniqueness` and `ValidateUsernameUniqueness`.
pub mod Apart
use mathlib.Core.Bool.{Bool, true, false}
use mathlib.Core.Option.{none, some}
use mathlib.Core.List.{List, [], ◌∷◌, ◌++◌, map}
use grlx.Common.{Str, str, ◌==◌, Result, ok, err, if◌then◌else◌}
use grlx.Common.Dict.{lookup, insert}
use grlx.Rbac.Error.{Error, duplicate_pubkey, duplicate_username}
use grlx.Rbac.Config.Values.{Value, parse_string_slice, UserEntry, parse_user_entries}

abbrev pub list_at : Str → List (Str × List Str) → List Str
list_at key m = elim (lookup key m) [ none ↦ [] | some xs ↦ xs ]

-- `seen[key] = append(seen[key], value)`, for each pair.
unfoldable pub gather : List (Str × Str) → List (Str × List Str) → List (Str × List Str)
unfolding lookup insert
gather [] seen = seen
gather ((key, value) ∷ pairs) seen = gather pairs (insert key (list_at key seen ++ value ∷ []) seen)

-- The pairs of pubkeys and roles of the two sections.
unfoldable pub user_pairs : List (Str × Value) → List (Str × Str)
unfolding parse_user_entries
user_pairs [] = []
user_pairs ((role, v) ∷ section) =
    map (λ (e : UserEntry). (e.pubkey, str "users." ++ role)) (parse_user_entries v)
    ++ user_pairs section

unfoldable pub legacy_pairs : List (Str × Value) → List (Str × Str)
unfolding parse_string_slice
legacy_pairs [] = []
legacy_pairs ((role, v) ∷ section) =
    map (λ k. (k, str "pubkeys." ++ role)) (parse_string_slice (some v)) ++ legacy_pairs section

-- `len(xs) > 1`
abbrev pub has_several : List Str → Bool
has_several [] = false
has_several (x ∷ []) = false
has_several (x ∷ y ∷ xs) = true

unfoldable pub any_several : List (Str × List Str) → Bool
any_several [] = false
any_several ((key, xs) ∷ m) = if has_several xs then true else any_several m

-- `ValidateUserUniqueness`
unfoldable pub validate_user_uniqueness :
    List (Str × Value) → List (Str × Value) → Result Error (Unit {0})
unfolding user_pairs legacy_pairs gather any_several
validate_user_uniqueness users pubkeys =
    if any_several (gather (user_pairs users ++ legacy_pairs pubkeys) [])
    then err duplicate_pubkey
    else ok tt

-- The pairs of usernames and pubkeys, without empty usernames.
unfoldable pub named_pairs : List UserEntry → List (Str × Str)
named_pairs [] = []
named_pairs (e ∷ entries) =
    let rest = named_pairs entries in
    if e.username == [] then rest else (e.username, e.pubkey) ∷ rest

unfoldable pub username_pairs : List (Str × Value) → List (Str × Str)
unfolding named_pairs parse_user_entries
username_pairs [] = []
username_pairs ((role, v) ∷ section) = named_pairs (parse_user_entries v) ++ username_pairs section

-- `ValidateUsernameUniqueness`
unfoldable pub validate_username_uniqueness : List (Str × Value) → Result Error (Unit {0})
unfolding username_pairs gather any_several
validate_username_uniqueness users =
    if any_several (gather (username_pairs users) []) then err duplicate_username else ok tt
