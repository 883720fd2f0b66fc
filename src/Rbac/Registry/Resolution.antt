-- ===== src/Rbac/Registry/Resolution.antt =====
-- `Resolve` of internal/rbac/cohort.go, its steps, and `ValidateReferencesAll` before it.
use Prim.Native.Nat.{ℕ, zero, suc, ◌+◌, ◌≤◌, ◌<◌}
use mathlib.Core.Path.{◌≡◌, refl, sym, ap, ◌∙◌, subst}
use mathlib.Core.Logic.{inl, inr}
use mathlib.Core.Bool.{true, false}
use mathlib.Core.Option.{some}
use mathlib.Core.List.{List, [], ◌∷◌}
use native.Mathlib.Omega.{arith}
use grlx.Common.{
  Str, contains, Result, ok, ◌>>=◌, length, Bool-cases, Option-cases, All, All-of_mem,
}
use grlx.Common.Table.{Table}
use grlx.Rbac.Error.{Error}
use grlx.Rbac.Cohort.{
  CohortType, static, dynamic, compound, Operator, DynamicMatch, CompoundExpr, Cohort, validate,
  has_few, combine, resolve_static,
}
use grlx.Rbac.Registry.{
  cohort_key, dec_key, Registry, is_compound, depth_errors, reference_errors, errors_of,
  validate_references_all, compute_depth, get_cohort, list_cohorts, resolve_dynamic, match_all,
  combine_operands, resolve_operands, resolve_compound, resolve_type, resolve_from, resolve,
}
use grlx.Rbac.Registry.Depth.{
  compute_depth-eq-ok, compound_depth-eq-ok, max_child_bound, compute_depth-Restores,
}
use grlx.Rbac.Registry.Listing.{
  append-eq_nil, errors_of-nil, depth_errors-nil, named-list_cohorts, listed,
}

module _ (t : Table dec_key cohort_key) where
  open t use {State, find, find-key, mem-select}

  -- Every row of a tenant passes `Validate`, as `Register` requires.
  abbrev pub AllValid : State → Str → Type 0
  AllValid db tenant_id =
      (name : Str) (c : Cohort) → find db (tenant_id, name) ≡ some c → validate c ≡ ok tt

  module _ (get_prop : Str → Str → Str → Str) where
    combine_operands_ok :
        (resolve_one : Str → Result Error (List Str)) (op : Operator) (operands result : List Str)
        → All (λ o. (ms : List Str) × (resolve_one o ≡ ok ms)) operands
        → (ms : List Str) × (combine_operands t get_prop resolve_one op operands result ≡ ok ms)
    unfolding combine_operands
    combine_operands_ok resolve_one op [] result h = (result, refl)
    combine_operands_ok resolve_one op (o ∷ operands) result h =
        let (ms, e) = h.0 in
        let (out, f) = combine_operands_ok resolve_one op operands (combine op result ms) h.1 in
        (
          out,
          ap
                (λ m. m >>= λ s.
                  combine_operands t get_prop resolve_one op operands (combine op result s))
                e
              ∙ f,
        )

    resolve_operands_ok :
        (resolve_one : Str → Result Error (List Str)) (op : Operator) (operands : List Str)
        → has_few operands ≡ false
        → All (λ o. (ms : List Str) × (resolve_one o ≡ ok ms)) operands
        → (ms : List Str) × (resolve_operands t get_prop resolve_one op operands ≡ ok ms)
    unfolding resolve_operands
    resolve_operands_ok resolve_one op [] few h = cc
    resolve_operands_ok resolve_one op (o ∷ []) few h = cc
    resolve_operands_ok resolve_one op (o ∷ o' ∷ operands) few h =
        let (ms, e) = h.0 in
        let (out, f) = combine_operands_ok resolve_one op (o' ∷ operands) ms h.1 in
        (
          out,
          ap (λ m. m >>= λ s. combine_operands t get_prop resolve_one op (o' ∷ operands) s) e ∙ f,
        )

    resolve_dynamic_ok :
        (tenant_id : Str) (ids : List Str) (c : Cohort) (match : DynamicMatch)
        → c.match ≡ some match
        → (ms : List Str) × (resolve_dynamic t get_prop tenant_id c ids ≡ ok ms)
    unfolding resolve_dynamic
    resolve_dynamic_ok tenant_id [] c match e = ([], refl)
    resolve_dynamic_ok tenant_id (id ∷ ids) c match e =
        (match_all t get_prop tenant_id match (id ∷ ids) [], ground arith)

    -- A cohort that is not compound resolves, if it is valid.
    resolve_type_flat :
        (resolve_one : Str → Result Error (List Str)) (tenant_id : Str) (ids : List Str)
        (c : Cohort)
        → validate c ≡ ok tt
        → is_compound c.type ≡ false
        → (ms : List Str) × (resolve_type t get_prop resolve_one tenant_id ids c.type c ≡ ok ms)
    unfolding resolve_type validate
    resolve_type_flat resolve_one tenant_id ids c v flat = go c.type refl
      where
        go :
            (type : CohortType)
            → c.type ≡ type
            → (ms : List Str) × (resolve_type t get_prop resolve_one tenant_id ids type c ≡ ok ms)
        go static e = (resolve_static c, refl)
        go dynamic e = elim (Option-cases c.match) [
          | inl nil ↦ absurd (ground arith)
          | inr (match, some_match) ↦ resolve_dynamic_ok tenant_id ids c match some_match
        ]
        go compound e = absurd (ground arith)
        go (CohortType.unknown x) e = absurd (ground arith)

    -- One round of `resolve` that passes its tests.
    pub resolve_from-step :
        (fuel : ℕ) (r : Registry) (db : State) (ids : List Str) (name : Str) (visited : List Str)
        (depth : ℕ) (c : Cohort)
        → depth ≤ 16
        → contains visited name ≡ false
        → find db (r.tenant_id, name) ≡ some c
        → resolve_from t get_prop (suc fuel) r db ids name visited depth
          ≡ resolve_type t get_prop
              (λ operand.
                resolve_from t get_prop fuel r db ids operand (name ∷ visited) (depth + 1))
              r.tenant_id
              ids
              c.type
              c
    unfolding resolve_from get_cohort
    resolve_from-step fuel r db ids name visited depth c le new found = ground arith

    compound_has_operands :
        (c : Cohort) (expr : CompoundExpr)
        → validate c ≡ ok tt
        → is_compound c.type ≡ true
        → c.compound ≡ some expr
        → (c.type ≡ compound) × (has_few expr.operands ≡ false)
    unfolding validate
    compound_has_operands c expr v isc e = ground arith

    pub resolve_type-compound :
        (resolve_one : Str → Result Error (List Str)) (tenant_id : Str) (ids : List Str)
        (c : Cohort) (expr : CompoundExpr)
        → c.type ≡ compound
        → c.compound ≡ some expr
        → resolve_type t get_prop resolve_one tenant_id ids c.type c
          ≡ resolve_operands t get_prop resolve_one expr.operator expr.operands
    unfolding resolve_type resolve_compound
    resolve_type-compound resolve_one tenant_id ids c expr ty e = rw (ty, e)

    -- What `computeDepth` accepts at a depth that leaves room for it, `resolve` resolves.
    resolve_from_of_depth :
        (fuel steps : ℕ) (r : Registry) (db : State) (ids : List Str) (name : Str)
        (visited : List Str) (depth d : ℕ) (left : List Str)
        → AllValid db r.tenant_id
        → compute_depth fuel (list_cohorts t db r.tenant_id) name visited ≡ ok (d, left)
        → depth + d ≤ 16
        → 16 < steps + depth
        → (ms : List Str) × (resolve_from t get_prop steps r db ids name visited depth ≡ ok ms)
    unfolding compute_depth
    resolve_from_of_depth zero steps r db ids name visited depth d left valid h le enough = cc
    resolve_from_of_depth (suc fuel) zero r db ids name visited depth d left valid h le enough =
        absurd (omega arith)
    resolve_from_of_depth (suc fuel) (suc steps) r db ids name visited depth d left valid h le
          enough =
        let cohorts = list_cohorts t db r.tenant_id in
        let (c, new, found, body) = compute_depth-eq-ok fuel cohorts name visited d left h in
        let row = sym (named-list_cohorts t db r.tenant_id name) ∙ found in
        let v = valid name c row in
        let below =
          λ (o : Str). resolve_from t get_prop steps r db ids o (name ∷ visited) (depth + 1) in
        let step = resolve_from-step steps r db ids name visited depth c (omega arith) new row in
        elim (Bool-cases (is_compound c.type)) [
          | inr flat ↦
              let (ms, e) = resolve_type_flat below r.tenant_id ids c v flat in (ms, step ∙ e)
          | inl isc ↦
              let (expr, deepest, seen, e, loop, up, out) =
                compound_depth-eq-ok (compute_depth fuel cohorts) c name visited d left isc body in
              let (kept, _, each) =
                max_child_bound (compute_depth fuel cohorts) (compute_depth-Restores fuel cohorts)
                  expr.operands (name ∷ visited) 0 deepest seen loop in
              let (ty, few) = compound_has_operands c expr v isc e in
              let (ms, f) = resolve_operands_ok below expr.operator expr.operands few (
                All-of_mem _ expr.operands λ o m.
                  let (n, ran, under) = each o m in
                  resolve_from_of_depth fuel steps r db ids o (name ∷ visited) (depth + 1) n
                    (name ∷ visited) valid ran (omega arith) (omega arith)) in
              (ms, step ∙ resolve_type-compound below r.tenant_id ids c expr ty e ∙ f)
        ]

    -- On a registry whose rows are valid and that `ValidateReferencesAll` accepts, every cohort
    -- that is there resolves, whatever the sprouts and their properties are.
    pub resolve_of_validated :
        (r : Registry) (db : State) (name : Str) (ids : List Str) {c : Cohort}
        → AllValid db r.tenant_id
        → validate_references_all t r db ≡ []
        → find db (r.tenant_id, name) ≡ some c
        → (ms : List Str) × (resolve t get_prop r db name ids ≡ ok ms)
    unfolding resolve validate_references_all
    resolve_of_validated r db name ids {c} valid accepted row =
        let cohorts = list_cohorts t db r.tenant_id in
        elim (Bool-cases (is_compound c.type)) [
          | inr flat ↦
              let below = λ (o : Str). resolve_from t get_prop 17 r db ids o (name ∷ []) (0 + 1) in
              let step =
                resolve_from-step 17 r db ids name [] 0 c (omega arith) (unfold contains in refl)
                  row in
              let (ms, e) = resolve_type_flat below r.tenant_id ids c (valid name c row) flat in
              (ms, step ∙ e)
          | inl isc ↦
              let (m, n) = listed t db r.tenant_id name c row in
              let quiet =
                errors_of-nil (depth_errors cohorts) cohorts
                  (append-eq_nil (errors_of (reference_errors cohorts) cohorts) _ accepted) c m in
              let (d, left, run, le) = depth_errors-nil cohorts c isc quiet in
              resolve_from_of_depth (suc (length cohorts)) 18 r db ids name [] 0 d left valid
                (subst (λ x. compute_depth (suc (length cohorts)) cohorts x [] ≡ ok (d, left)) n
                  run)
                (omega arith) (omega arith)
        ]
