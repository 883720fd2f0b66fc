-- ===== src/Rbac/Registry/Refresh.antt =====
-- `Get`, `List`, `GetCachedMembership`, `ValidateReferences`, `Refresh` and `RefreshAll` of
-- internal/rbac/cohort.go.
use Prim.Native.Nat.{ℕ}
use mathlib.Core.Path.{◌≡◌, refl, ◌∙◌, sym, subst}
use mathlib.Core.Logic.{◌⊎◌, inl, inr}
use mathlib.Core.Option.{Option, none, some}
use mathlib.Core.List.{List, [], ◌∷◌, ◌++◌, map}
use grlx.Common.{Str, ◌==◌, Result, ok, err, ◌>>=◌, if◌then◌else◌, contains, >>=-eq-ok}
use grlx.Common.Dict
use grlx.Common.Dict.{lookup-insert}
use grlx.Common.Sort.{sort_strings, IsSorted, contains-sort_strings, sort_strings-IsSorted}
use grlx.Common.Table.{Table}
use grlx.Rbac.Error.{Error, cohort_not_found}
use grlx.Rbac.Cohort.{Cohort}
use grlx.Rbac.Registry.{
  dec_key, cohort_key, Registry, CachedMembership, get_cohort, list_cohorts,
  validate_references_all, resolve,
}

Result-cases :
    {A : Type 0} (r : Result Error A) → ((e : Error) × (r ≡ err e)) ⊎ ((a : A) × (r ≡ ok a))
Result-cases (err e) = inl (e, refl)
Result-cases (ok a) = inr (a, refl)

-- `RefreshResult`
pub record RefreshResult : Type 0 where
  pub name : Str
  pub members : List Str
  pub last_refreshed : ℕ

-- `GetCachedMembership`
unfoldable pub get_cached_membership : Registry → Str → Option CachedMembership
unfolding Dict.lookup
get_cached_membership r name = Dict.lookup name r.cache

module _ (t : Table dec_key cohort_key) where
  open t use {State}

  -- `Get`
  unfoldable pub get : Registry → State → Str → Result Error Cohort
  unfolding get_cohort
  get r db name = get_cohort t db r.tenant_id name

  -- `List`
  unfoldable pub list : Registry → State → List Str
  unfolding list_cohorts
  list r db = map Cohort.name (list_cohorts t db r.tenant_id)

  -- `ValidateReferences`: the first of the errors.
  unfoldable pub validate_references : Registry → State → Result Error (Unit {0})
  unfolding validate_references_all
  validate_references r db = elim (validate_references_all t r db) [ [] ↦ ok tt | e ∷ es ↦ err e ]

  module _ (get_prop : Str → Str → Str → Str) (now : ℕ) (db : State) (ids : List Str) where
    -- The end of `Refresh`.
    unfoldable pub cache_members : Registry → Str → List Str → Registry × RefreshResult
    cache_members r name members = (
      record r {
        cache = Dict.insert name (record { members = members; last_refreshed = now }) r.cache;
      },
      record { name = name; members = members; last_refreshed = now },
    )

    -- `Refresh`
    unfoldable pub refresh : Registry → Str → Result Error (Registry × RefreshResult)
    unfolding get_cohort cache_members sort_strings
    refresh r name = elim (get_cohort t db r.tenant_id name) [
      | err e ↦ err cohort_not_found
      | ok c ↦ resolve t get_prop r db name ids >>= λ members.
          ok (cache_members r name (sort_strings members))
    ]

    -- The loop of `RefreshAll`: the registry, the results and the first error.
    unfoldable pub refresh_each :
        List Str
        → Registry
        → List RefreshResult
        → Option Error
        → Registry × List RefreshResult × Option Error
    unfolding refresh
    refresh_each [] r results first_err = (r, results, first_err)
    refresh_each (name ∷ names) r results first_err = elim (refresh r name) [
      | err e ↦ refresh_each names r results (elim first_err [ none ↦ some e | some f ↦ some f ])
      | ok (r', result) ↦ refresh_each names r' (results ++ result ∷ []) first_err
    ]

    -- `RefreshAll`
    unfoldable pub refresh_all : Registry → Registry × List RefreshResult × Option Error
    unfolding refresh_each list sort_strings
    refresh_all r = refresh_each (sort_strings (list r db)) r [] none

    abbrev IsCached : Registry → Str → List Str → Registry × RefreshResult → Type 0
    IsCached r name members (r', result) =
        resolve t get_prop r db name ids ≡ ok members
        → (members : List Str) × (resolve t get_prop r db name ids ≡ ok members)
          × IsSorted result.members
          × ((id : Str) → contains result.members id ≡ contains members id)
          × ((other : Str)
              → get_cached_membership r' other ≡ (
                  if name == other
                  then some (record { members = result.members; last_refreshed = now })
                  else get_cached_membership r other))

    cached :
        (r : Registry) (name : Str) (members : List Str)
        → IsCached r name members (cache_members r name (sort_strings members))
    unfolding cache_members get_cached_membership
    cached r name members resolved = (
      members,
      resolved,
      sort_strings-IsSorted members,
      contains-sort_strings members,
      λ other.
          lookup-insert name other (record { members = sort_strings members; last_refreshed = now })
            r.cache,
    )

    -- A refresh that succeeds caches for the name, and for no other, the sorted members of the
    -- cohort, which are those that `Resolve` gives.
    pub refresh-cached :
        (r r' : Registry) (name : Str) (result : RefreshResult)
        → refresh r name ≡ ok (r', result)
        → (members : List Str) × (resolve t get_prop r db name ids ≡ ok members)
          × IsSorted result.members
          × ((id : Str) → contains result.members id ≡ contains members id)
          × ((other : Str)
              → get_cached_membership r' other ≡ (
                  if name == other
                  then some (record { members = result.members; last_refreshed = now })
                  else get_cached_membership r other))
    unfolding refresh
    refresh-cached r r' name result h = elim (Result-cases (get_cohort t db r.tenant_id name)) [
      | inl (e, missing) ↦
          absurd (let k : refresh r name ≡ err cohort_not_found = rw (refresh, missing) refl in cc)
      | inr (c, found) ↦
          let k : (resolve t get_prop r db name ids >>= λ members.
          ok (cache_members r name (sort_strings members)))
              ≡ ok (r', result) =
            sym (rw (refresh, found) refl) ∙ h in
          let (members, resolved, out) = >>=-eq-ok (resolve t get_prop r db name ids) _ k in
          let same : cache_members r name (sort_strings members) ≡ (r', result) = cc in
          subst (λ x. IsCached r name members x) same (cached r name members) resolved
    ]
