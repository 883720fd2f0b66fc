-- ===== src/Rbac/Registry/Totality.antt =====
-- The recursions of internal/rbac/cohort.go and the model's fuel.
use Prim.Native.Nat.{ℕ, zero, suc, ◌+◌, ◌≤◌, ◌<◌, compare, Ordering}
use mathlib.Core.Path.{sym, ap}
use mathlib.Core.Logic.{◌≢◌, inl, inr, ⊎_elim}
use mathlib.Core.Bool.{Bool, true, false, not}
use mathlib.Core.Option.{Option, none, some}
use mathlib.Core.List.{List, [], ◌∷◌, Memᴰ}
use mathlib.Core.List.Memᴰ
use native.Mathlib.Omega.{arith}
use native.Mathlib.Decide.{dec_le}
use grlx.Common.{
  Str, contains, Result, ok, err, ◌>>=◌, if◌then◌else◌, length, Bool-cases, length-keep-le,
  Option-cases, Memᴰ-cons, Memᴰ-append,
}
use grlx.Common.Table.{Table}
use grlx.Rbac.Error.{Error, out_of_fuel, cohort_not_found, nil_dereference, max_depth_exceeded}
use grlx.Rbac.Cohort.{
  CohortType, static, dynamic, compound, Operator, CompoundExpr, Cohort, combine,
}
use grlx.Rbac.Registry.{
  cohort_key, dec_key, Registry, max_nesting_depth, named, is_compound, operands_of,
  missing_operand_errors, reference_errors, depth_error, depth_errors, errors_of, compute_depth,
  get_cohort, validate_references_all, list_cohorts, resolve_dynamic, combine_operands,
  resolve_operands, resolve_compound, resolve_type, resolve_from, resolve,
}
use grlx.Rbac.Registry.Depth.{compute_depth-total}

not-missing :
    (cohorts : List Cohort) (operands : List Str)
    → ¬ Memᴰ out_of_fuel (missing_operand_errors cohorts operands)
unfolding missing_operand_errors
not-missing cohorts [] m = Memᴰ.not-nil m
not-missing cohorts (op ∷ operands) m = elim (Option-cases (named cohorts op)) [
  | inl unknown ↦ ground (
    arith,
    not-missing cohorts operands,
    Memᴰ-cons out_of_fuel cohort_not_found (missing_operand_errors cohorts operands),
  )
  | inr (c, found) ↦ ground (arith, not-missing cohorts operands)
]

not-single : (e : Error) → out_of_fuel ≢ e → ¬ Memᴰ out_of_fuel (e ∷ [])
not-single e ne m = ne (Memᴰ.eq_of_singleton m)

not-reference_of :
    (cohorts : List Cohort) (b : Bool) (expr : Option CompoundExpr)
    → ¬ Memᴰ out_of_fuel (
        if b
        then elim (operands_of expr) [
          | ok operands ↦ missing_operand_errors cohorts operands
          | err e ↦ e ∷ []
        ]
        else [])
unfolding operands_of
not-reference_of cohorts true none m = not-single nil_dereference (λ e. cc) m
not-reference_of cohorts true (some expr) m = not-missing cohorts expr.operands m
not-reference_of cohorts false expr m = Memᴰ.not-nil m

not-depth_error :
    (m : Result Error (ℕ × List Str)) → m ≢ err out_of_fuel → ¬ Memᴰ out_of_fuel (depth_error m)
not-depth_error (err e) ne m = ne (ap err (sym (Memᴰ.eq_of_singleton m)))
not-depth_error (ok (depth, left)) ne m = go (compare max_nesting_depth depth) m
  where
    go :
        (o : Ordering)
        → Memᴰ out_of_fuel (elim o [ Ordering.lt ↦ max_depth_exceeded ∷ [] | _ ↦ [] ])
        → ⊥
    go Ordering.lt k = not-single max_depth_exceeded (λ e. cc) k
    go Ordering.eq k = Memᴰ.not-nil k
    go Ordering.gt k = Memᴰ.not-nil k

not-depth : (cohorts : List Cohort) (c : Cohort) → ¬ Memᴰ out_of_fuel (depth_errors cohorts c)
not-depth cohorts c m = elim (Bool-cases (is_compound c.type)) [
  | inr flat ↦ Memᴰ.not-nil (rw flat at m)
  | inl isc ↦
      not-depth_error (compute_depth (suc (length cohorts)) cohorts c.name [])
        (compute_depth-total (suc (length cohorts)) cohorts c.name []
          (omega (arith, length-keep-le {A = Cohort} (λ d. not (contains [] d.name)) cohorts)))
        (rw isc at m)
]

not-errors_of :
    (f : Cohort → List Error) (cohorts : List Cohort)
    → ((c : Cohort) → ¬ Memᴰ out_of_fuel (f c))
    → ¬ Memᴰ out_of_fuel (errors_of f cohorts)
unfolding errors_of
not-errors_of f [] h m = Memᴰ.not-nil m
not-errors_of f (c ∷ cohorts) h m =
    ⊎_elim (h c) (not-errors_of f cohorts h)
      ((Memᴰ-append out_of_fuel (f c) (errors_of f cohorts)).0 m)

bind_total :
    (m : Result Error (List Str)) (f : List Str → Result Error (List Str))
    → m ≢ err out_of_fuel
    → ((set : List Str) → f set ≢ err out_of_fuel)
    → (m >>= f) ≢ err out_of_fuel
bind_total (ok set) f runs rest h = rest set h
bind_total (err e) f runs rest h = runs h

module _ (t : Table dec_key cohort_key) where
  open t use {State, find}

  module _ (get_prop : Str → Str → Str → Str) where
    combine_operands-total :
        (answer : Str → Result Error (List Str)) (op : Operator) (operands result : List Str)
        → ((o : Str) → answer o ≢ err out_of_fuel)
        → combine_operands t get_prop answer op operands result ≢ err out_of_fuel
    unfolding combine_operands
    combine_operands-total answer op [] result runs h = cc
    combine_operands-total answer op (o ∷ operands) result runs h =
        bind_total (answer o) _ (runs o)
          (λ set. combine_operands-total answer op operands (combine op result set) runs) h

    resolve_operands-total :
        (answer : Str → Result Error (List Str)) (op : Operator) (operands : List Str)
        → ((o : Str) → answer o ≢ err out_of_fuel)
        → resolve_operands t get_prop answer op operands ≢ err out_of_fuel
    unfolding resolve_operands
    resolve_operands-total answer op [] runs h = cc
    resolve_operands-total answer op (o ∷ []) runs h = cc
    resolve_operands-total answer op (o ∷ p ∷ operands) runs h =
        bind_total (answer o) _ (runs o)
          (λ set. combine_operands-total answer op (p ∷ operands) set runs) h

    resolve_compound-total :
        (answer : Str → Result Error (List Str)) (expr : Option CompoundExpr)
        → ((o : Str) → answer o ≢ err out_of_fuel)
        → resolve_compound t get_prop answer expr ≢ err out_of_fuel
    unfolding resolve_compound
    resolve_compound-total answer none runs h = cc
    resolve_compound-total answer (some expr) runs h =
        resolve_operands-total answer expr.operator expr.operands runs h

    resolve_dynamic-total :
        (tenant_id : Str) (c : Cohort) (ids : List Str)
        → resolve_dynamic t get_prop tenant_id c ids ≢ err out_of_fuel
    unfolding resolve_dynamic
    resolve_dynamic-total tenant_id c [] h = cc
    resolve_dynamic-total tenant_id c (id ∷ ids) h = ground arith

    resolve_type-total :
        (answer : Str → Result Error (List Str)) (tenant_id : Str) (ids : List Str)
        (type : CohortType) (c : Cohort)
        → ((o : Str) → answer o ≢ err out_of_fuel)
        → resolve_type t get_prop answer tenant_id ids type c ≢ err out_of_fuel
    unfolding resolve_type
    resolve_type-total answer tenant_id ids static c runs h = cc
    resolve_type-total answer tenant_id ids dynamic c runs h =
        resolve_dynamic-total tenant_id c ids h
    resolve_type-total answer tenant_id ids compound c runs h =
        resolve_compound-total answer c.compound runs h
    resolve_type-total answer tenant_id ids (CohortType.unknown x) c runs h = cc

    resolve_from-total :
        (fuel : ℕ) (r : Registry) (db : State) (ids : List Str) (name : Str) (visited : List Str)
        (depth : ℕ)
        → depth ≤ 17
        → 17 < fuel + depth
        → resolve_from t get_prop fuel r db ids name visited depth ≢ err out_of_fuel
    unfolding resolve_from get_cohort
    resolve_from-total zero r db ids name visited depth le enough h = absurd (omega arith)
    resolve_from-total (suc fuel) r db ids name visited depth le enough h = elim (dec_le depth 16) [
      | no deep ↦ ground arith
      | yes fits ↦ elim (Option-cases (find db (r.tenant_id, name))) [
        | inl missing ↦ ground arith
        | inr (c, found) ↦
            resolve_type-total
              (λ o. resolve_from t get_prop fuel r db ids o (name ∷ visited) (depth + 1))
              r.tenant_id ids c.type c
              (λ o.
                resolve_from-total fuel r db ids o (name ∷ visited) (depth + 1) (omega arith)
                  (omega arith))
              (ground arith)
      ]
    ]

  -- Neither `ValidateReferencesAll` nor `Resolve` runs out of the model's fuel, on any table of
  -- cohorts, with cycles and unknown operands in it or not: the recursions of the program end.
  pub references_and_resolve_end :
      (get_prop : Str → Str → Str → Str) (r : Registry) (db : State) (name : Str) (ids : List Str)
      → (¬ Memᴰ out_of_fuel (validate_references_all t r db))
        × (resolve t get_prop r db name ids ≢ err out_of_fuel)
  unfolding validate_references_all resolve
  references_and_resolve_end get_prop r db name ids =
      let cohorts = list_cohorts t db r.tenant_id in
      (
        λ m.
            ⊎_elim
              (not-errors_of (reference_errors cohorts) cohorts
                (λ c. not-reference_of cohorts (is_compound c.type) c.compound))
              (not-errors_of (depth_errors cohorts) cohorts (not-depth cohorts))
              ((Memᴰ-append out_of_fuel (errors_of (reference_errors cohorts) cohorts)
                  (errors_of (depth_errors cohorts) cohorts)).0
                m),
        resolve_from-total get_prop 18 r db ids name [] 0 (omega arith) (omega arith),
      )
