-- ===== src/Rbac/Registry.antt =====
-- internal/rbac/cohort.go, `Registry`, over the table of cohort rows (store.go): registration,
-- the validation of references and resolution.
pub mod Depth
pub mod Listing
pub mod Resolution
pub mod Operands
pub mod Compound
pub mod Totality
pub mod Register
pub mod Refresh
use Prim.Native.Nat.{ℕ, zero, suc, ◌+◌, max, compare, Ordering}
use mathlib.Core.Bool.{Bool, true, false, ◌&&◌, ◌||◌, not}
use mathlib.Core.Option.{Option, none, some}
use mathlib.Core.List.{List, [], ◌∷◌, ◌++◌, map}
use grlx.Common.{
  Str, str, dec_str, ◌==◌, contains, keep, Result, ok, err, ◌>>=◌, ◌>>◌, if◌then◌else◌, length,
}
use grlx.Common.Dict
use grlx.Common.Table.{Table, upsert}
use grlx.Rbac.Error.{
  Error, cohort_not_found, circular_reference, max_depth_exceeded, invalid_cohort, missing_operands,
  self_reference, nil_dereference, out_of_fuel,
}
use grlx.Rbac.Cohort.{
  CohortType, static, dynamic, compound, Operator, DynamicMatch, CompoundExpr, Cohort, validate,
  has_few, matches_prop_value, add, resolve_static, combine,
}

-- The primary key of `rbac_cohorts`.
abbrev pub cohort_key : Cohort → Str × Str
cohort_key c = (c.tenant_id, c.name)

unfoldable pub dec_key : Discrete (Str × Str)
unfolding dec_str
dec_key = hlevel dec_str

abbrev pub max_nesting_depth : ℕ
max_nesting_depth = 16

pub record CachedMembership : Type 0 where
  pub members : List Str
  pub last_refreshed : ℕ

pub record Registry : Type 0 where
  pub cache : List (Str × CachedMembership)
  pub tenant_id : Str

-- `cohorts[name]`, in the map that `listCohorts` makes of the rows of a tenant.
unfoldable pub named : List Cohort → Str → Option Cohort
unfolding dec_str
named [] name = none
named (c ∷ cohorts) name = if c.name == name then some c else named cohorts name

-- `c.Type != CohortTypeCompound`
abbrev pub is_compound : CohortType → Bool
is_compound compound = true
is_compound _ = false

-- `c.Compound.Operands`, where a nil pointer faults.
unfoldable pub operands_of : Option CompoundExpr → Result Error (List Str)
operands_of none = err nil_dereference
operands_of (some expr) = ok expr.operands

-- The loop of `computeDepth` over the operands: the deepest of them, and the visited names after it.
unfoldable pub max_child :
    (Str → List Str → Result Error (ℕ × List Str))
    → List Str
    → List Str
    → ℕ
    → Result Error (ℕ × List Str)
max_child depth_of [] visited deepest = ok (deepest, visited)
max_child depth_of (op ∷ operands) visited deepest = do
  (d, visited') ← depth_of op visited
  max_child depth_of operands visited' (max deepest d)

-- `visited[name] = true`, the loop, and `delete(visited, name)`.
abbrev pub leave_cohort : Str → ℕ × List Str → Result Error (ℕ × List Str)
leave_cohort name (deepest, visited) = ok (1 + deepest, keep (λ v. not (v == name)) visited)

unfoldable pub compound_depth :
    (Str → List Str → Result Error (ℕ × List Str))
    → Cohort
    → Str
    → List Str
    → Result Error (ℕ × List Str)
unfolding max_child operands_of
compound_depth depth_of c name visited = if not (is_compound c.type) then ok (0, visited) else (do
  operands ← operands_of c.compound
  result ← max_child depth_of operands (name ∷ visited) 0
  leave_cohort name result)

-- `computeDepth`: the depth, and the map of visited names as the call leaves it.
unfoldable pub compute_depth : ℕ → List Cohort → Str → List Str → Result Error (ℕ × List Str)
unfolding compound_depth
compute_depth zero cohorts name visited = err out_of_fuel
compute_depth (suc fuel) cohorts name visited =
    let go = λ (c : Cohort). compound_depth (compute_depth fuel cohorts) c name visited in
    if contains visited name
    then err circular_reference
    else elim (named cohorts name) [ none ↦ err cohort_not_found | some c ↦ go c ]

-- The first loop of `ValidateReferencesAll`, for one cohort: an error for each unknown operand.
unfoldable pub missing_operand_errors : List Cohort → List Str → List Error
missing_operand_errors cohorts [] = []
missing_operand_errors cohorts (op ∷ operands) =
    let rest = missing_operand_errors cohorts operands in
    elim (named cohorts op) [ none ↦ cohort_not_found ∷ rest | some _ ↦ rest ]

abbrev pub reference_errors : List Cohort → Cohort → List Error
reference_errors cohorts c =
    if is_compound c.type
    then elim (operands_of c.compound) [
      | ok operands ↦ missing_operand_errors cohorts operands
      | err e ↦ e ∷ []
    ]
    else []

-- The body of the second loop: the error of the computation, or a depth beyond the maximum.
abbrev pub depth_error : Result Error (ℕ × List Str) → List Error
depth_error (err e) = e ∷ []
depth_error (ok (depth, _)) = elim (compare max_nesting_depth depth) [
  | Ordering.lt ↦ max_depth_exceeded ∷ []
  | _ ↦ []
]

abbrev pub depth_errors : List Cohort → Cohort → List Error
depth_errors cohorts c =
    if is_compound c.type
    then depth_error (compute_depth (suc (length cohorts)) cohorts c.name [])
    else []

-- A loop of the two over the cohorts; Go's map has no fixed order, the model has that of the rows.
unfoldable pub errors_of : (Cohort → List Error) → List Cohort → List Error
errors_of f [] = []
errors_of f (c ∷ cohorts) = f c ++ errors_of f cohorts

unfoldable pub reference_errors_all : List Cohort → List Error
unfolding errors_of
reference_errors_all cohorts =
    errors_of (reference_errors cohorts) cohorts ++ errors_of (depth_errors cohorts) cohorts

-- The loop of `Register` over the operands of a compound cohort.
pub lists_itself : Cohort → Bool
lists_itself c =
    is_compound c.type
    && (elim (operands_of c.compound) [ ok operands ↦ contains operands c.name | err _ ↦ false ])

-- `if c.TenantID == "" { c.TenantID = r.tenantID }`, and `cohortRowFrom`'s fallback to the tenant
-- of the process.
pub fill_tenant : Registry → Str → Cohort → Cohort
fill_tenant r current_tenant c =
    let tid = if c.tenant_id == [] then r.tenant_id else c.tenant_id in
    record c { tenant_id = if tid == [] then current_tenant else tid }

module _ (t : Table dec_key cohort_key) where
  open t use {State, find, select}

  -- `getCohort`
  unfoldable pub get_cohort : State → Str → Str → Result Error Cohort
  get_cohort db tenant_id name = elim (find db (tenant_id, name)) [
    | none ↦ err cohort_not_found
    | some c ↦ ok c
  ]

  -- `listCohorts`
  unfoldable pub list_cohorts : State → Str → List Cohort
  list_cohorts db tenant_id = select db (λ row. row.tenant_id == tenant_id)

  -- `ValidateReferencesAll`
  unfoldable pub validate_references_all : Registry → State → List Error
  unfolding list_cohorts reference_errors_all
  validate_references_all r db = reference_errors_all (list_cohorts db r.tenant_id)

  -- `upsertCohortRow`: every column but the key is assigned.
  pub upsert_cohort_row : State → Cohort → State
  upsert_cohort_row db row =
      upsert t db row (λ old. record row { tenant_id = old.tenant_id; name = old.name })

  -- `Register`; a registration that fails leaves the registry and the table as they are.
  unfoldable pub register : Str → Registry → State → Cohort → Result Error (Registry × State)
  unfolding lists_itself fill_tenant upsert_cohort_row
  register current_tenant r db c =
      validate c
      >> (if lists_itself c
          then err self_reference
          else ok (
            record r { cache = Dict.erase c.name r.cache },
            upsert_cohort_row db (fill_tenant r current_tenant c),
          ))

  module _ (get_prop : Str → Str → Str → Str) where
    -- `resolveDynamic`, with `get_prop tenant sprout name` for the property store. A nil match rule
    -- faults at the first sprout.
    pub match_all : Str → DynamicMatch → List Str → List Str → List Str
    match_all tenant_id match [] result = result
    match_all tenant_id match (sprout_id ∷ ids) result = match_all tenant_id match ids (
        if matches_prop_value (get_prop tenant_id sprout_id match.prop_name) match.prop_value
        then add sprout_id result
        else result)

    pub resolve_dynamic : Str → Cohort → List Str → Result Error (List Str)
    unfolding match_all
    resolve_dynamic tenant_id c [] = ok []
    resolve_dynamic tenant_id c (id ∷ ids) = elim c.match [
      | none ↦ err nil_dereference
      | some match ↦ ok (match_all tenant_id match (id ∷ ids) [])
    ]

    -- The loop of `resolveCompound` over the operands behind the first.
    pub combine_operands :
        (Str → Result Error (List Str)) → Operator → List Str → List Str → Result Error (List Str)
    combine_operands resolve_one op [] result = ok result
    combine_operands resolve_one op (operand ∷ operands) result = do
      operand_set ← resolve_one operand
      combine_operands resolve_one op operands (combine op result operand_set)

    pub resolve_operands :
        (Str → Result Error (List Str)) → Operator → List Str → Result Error (List Str)
    unfolding combine_operands
    resolve_operands resolve_one op [] = err missing_operands
    resolve_operands resolve_one op (first ∷ rest) =
        if has_few (first ∷ rest)
        then err missing_operands
        else (do result ← resolve_one first; combine_operands resolve_one op rest result)

    pub resolve_compound :
        (Str → Result Error (List Str)) → Option CompoundExpr → Result Error (List Str)
    unfolding resolve_operands
    resolve_compound resolve_one none = err nil_dereference
    resolve_compound resolve_one (some expr) =
        resolve_operands resolve_one expr.operator expr.operands

    -- The switch of `resolve` on the type of the cohort.
    pub resolve_type :
        (Str → Result Error (List Str))
        → Str
        → List Str
        → CohortType
        → Cohort
        → Result Error (List Str)
    unfolding resolve_compound resolve_dynamic
    resolve_type resolve_one tenant_id ids static c = ok (resolve_static c)
    resolve_type resolve_one tenant_id ids dynamic c = resolve_dynamic tenant_id c ids
    resolve_type resolve_one tenant_id ids compound c = resolve_compound resolve_one c.compound
    resolve_type resolve_one tenant_id ids (CohortType.unknown _) c = err invalid_cohort

    -- `resolve`. Each operand gets its own copy of the visited names.
    pub resolve_from :
        ℕ → Registry → State → List Str → Str → List Str → ℕ → Result Error (List Str)
    unfolding resolve_type
    resolve_from zero r db ids name visited depth = err out_of_fuel
    resolve_from (suc fuel) r db ids name visited depth =
        let below =
          λ (operand : Str). resolve_from fuel r db ids operand (name ∷ visited) (depth + 1) in
        elim (compare max_nesting_depth depth) [
          | Ordering.lt ↦ err max_depth_exceeded
          | _ ↦ if contains visited name then err circular_reference else (do
            c ← get_cohort db r.tenant_id name
            resolve_type below r.tenant_id ids c.type c)
        ]

    -- `Resolve`. The fuel is one for each depth that passes the test, and one for the first that
    -- does not.
    unfoldable pub resolve : Registry → State → Str → List Str → Result Error (List Str)
    unfolding resolve_from
    resolve r db name ids = resolve_from 18 r db ids name [] 0
