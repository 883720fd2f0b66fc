-- ===== src/Rbac/Registry/Register.antt =====
-- `Register` of internal/rbac/cohort.go: what it stores, what it leaves alone, what it refuses.
use Prim.Native.Nat.{◌≤◌}
use mathlib.Core.Path.{◌≡◌, refl, sym, ap, ◌∙◌, subst}
use mathlib.Core.Logic.{◌≢◌, ◌⊎◌, inl, inr, ⊎_elim}
use mathlib.Core.Bool.{Bool, true, false, false≢true}
use mathlib.Core.Option.{Option, none, some}
use mathlib.Core.List.{List, [], ◌∷◌, Memᴰ}
use native.Mathlib.Omega.{arith}
use grlx.Common.{
  length, contains, contains_iff, Bool-cases, Str, dec_str, ◌==◌, Result, ok, err, if◌then◌else◌,
  >>=-eq-ok,
}
use grlx.Common.Dict.{lookup, erase, lookup-erase}
use grlx.Common.Table.{Table, upsert-save, find-save_self, find-save_ne, find-save_inv}
use grlx.Rbac.Error.{Error, self_reference, invalid_cohort, missing_operands}
use grlx.Rbac.Cohort.{
  CohortType, static, dynamic, compound, Cohort, validate, validate_type, Operator, and, or, except,
  DynamicMatch, CompoundExpr, has_few, validate_match, validate_operator, validate_operands,
  validate_compound,
}
use grlx.Rbac.Registry.{
  cohort_key, dec_key, Registry, lists_itself, fill_tenant, upsert_cohort_row, register,
  operands_of,
}

-- The fields that a cohort of each type has.
abbrev pub HasFields : CohortType → Cohort → Type 0
HasFields static c = Unit
HasFields dynamic c = (m : DynamicMatch) × (c.match ≡ some m) × (m.prop_name ≢ [])
HasFields compound c =
    (expr : CompoundExpr) × (c.compound ≡ some expr)
    × ((expr.operator ≡ and) ⊎ (expr.operator ≡ or) ⊎ (expr.operator ≡ except))
    × (2 ≤ length expr.operands)
    × ¬ Memᴰ c.name expr.operands
HasFields (CohortType.unknown x) c = ⊥

-- A cohort that has a name and the fields of its type: a property to match by, or an operator with at
-- least two operands, none of which is the cohort.
abbrev pub IsRegistrable : Cohort → Type 0
IsRegistrable c = (c.name ≢ []) × HasFields c.type c

match-HasFields :
    (c : Cohort) (m : Option DynamicMatch)
    → c.match ≡ m
    → validate_match m ≡ ok tt
    → HasFields dynamic c
unfolding validate_match
match-HasFields c none e h = absurd (cc)
match-HasFields c (some m) e h = elim (dec_str m.prop_name []) [
  | yes f ↦ absurd (ground arith)
  | no ne ↦ (m, e, ne)
]

operator_cases :
    (op : Operator) → validate_operator op ≡ ok tt → (op ≡ and) ⊎ (op ≡ or) ⊎ (op ≡ except)
unfolding validate_operator
operator_cases and h = inl refl
operator_cases or h = inr (inl refl)
operator_cases except h = inr (inr refl)
operator_cases (Operator.unknown x) h = absurd (cc)

has_few-le : (xs : List Str) → has_few xs ≡ false → 2 ≤ length xs
has_few-le [] h = absurd (cc)
has_few-le (x ∷ []) h = absurd (cc)
has_few-le (x ∷ y ∷ xs) h = omega arith

operands-IsCompound :
    (expr : CompoundExpr)
    → validate_compound (some expr) ≡ ok tt
    → ((expr.operator ≡ and) ⊎ (expr.operator ≡ or) ⊎ (expr.operator ≡ except))
      × (2 ≤ length expr.operands)
unfolding validate_compound validate_operands
operands-IsCompound expr h = by_operator (validate_operator expr.operator) refl
  where
    by_operator :
        (r : Result Error (Unit {0}))
        → validate_operator expr.operator ≡ r
        → ((expr.operator ≡ and) ⊎ (expr.operator ≡ or) ⊎ (expr.operator ≡ except))
          × (2 ≤ length expr.operands)
    by_operator (err e) at =
        absurd
          (let k : validate_compound (some expr) ≡ err e = rw (validate_compound, at) refl in cc)
    by_operator (ok tt) at = elim (Bool-cases (has_few expr.operands)) [
      | inl few ↦ absurd (
          let k : validate_compound (some expr) ≡ err missing_operands =
            rw (validate_compound, at, few) refl in
          cc)
      | inr many ↦ (operator_cases expr.operator at, has_few-le expr.operands many)
    ]

compound-HasFields :
    (c : Cohort) (expr : Option CompoundExpr)
    → c.type ≡ compound
    → c.compound ≡ expr
    → validate_compound expr ≡ ok tt
    → lists_itself c ≡ false
    → HasFields compound c
unfolding lists_itself operands_of validate_compound
compound-HasFields c none at e h free = absurd (cc)
compound-HasFields c (some expr) at e h free =
    let (operator, many) = operands-IsCompound expr h in
    let k : lists_itself c ≡ contains expr.operands c.name = rw (lists_itself, at, e) refl in
    (
      expr,
      e,
      operator,
      many,
      λ m. false≢true (sym free ∙ k ∙ (contains_iff expr.operands c.name).1 m),
    )

type-HasFields :
    (c : Cohort) (type : CohortType)
    → c.type ≡ type
    → validate_type type c ≡ ok tt
    → lists_itself c ≡ false
    → HasFields type c
unfolding validate_type
type-HasFields c static at h free = tt
type-HasFields c dynamic at h free = match-HasFields c c.match refl h
type-HasFields c compound at h free = compound-HasFields c c.compound at refl h free
type-HasFields c (CohortType.unknown x) at h free = absurd (cc)

validate-IsRegistrable :
    (c : Cohort) → validate c ≡ ok tt → lists_itself c ≡ false → IsRegistrable c
unfolding validate
validate-IsRegistrable c h free = elim (Bool-cases (c.name == [])) [
  | inl e ↦ absurd (let k : validate c ≡ err invalid_cohort = rw (validate, e) refl in cc)
  | inr e ↦
      (let k : validate c ≡ validate_type c.type c = rw (validate, e) refl in
        (λ f. ground arith, type-HasFields c c.type refl (sym k ∙ h) free))
]

fill_tenant-IsRegistrable :
    (r : Registry) (current_tenant : Str) (c : Cohort)
    → IsRegistrable c
    → IsRegistrable (fill_tenant r current_tenant c)
unfolding fill_tenant
fill_tenant-IsRegistrable r current_tenant c (named, fields) = (named, by_type c.type fields)
  where
    by_type :
        (type : CohortType) → HasFields type c → HasFields type (fill_tenant r current_tenant c)
    by_type static h = tt
    by_type dynamic h = h
    by_type compound h = h
    by_type (CohortType.unknown x) h = h

module _ (t : Table dec_key cohort_key) where
  open t use {State, find, save, find-save, find-key}

  upsert_cohort_row-save : (db : State) (row : Cohort) → upsert_cohort_row t db row ≡ save db row
  unfolding upsert_cohort_row
  upsert_cohort_row-save db row = upsert-save t db row _ λ old found i. record row {
    tenant_id = (find-key db (cohort_key row) found i).0;
    name = (find-key db (cohort_key row) found i).1;
  }

  register-eq-ok :
      (current_tenant : Str) (r : Registry) (db : State) (c : Cohort) {r' : Registry} {db' : State}
      → register t current_tenant r db c ≡ ok (r', db')
      → IsRegistrable c
        × (r' ≡ record r { cache = erase c.name r.cache })
        × (db' ≡ save db (fill_tenant r current_tenant c))
  unfolding register
  register-eq-ok current_tenant r db c {r'} {db'} h =
      let (u, v, rest) = >>=-eq-ok (validate c) _ h in go (lists_itself c) refl v rest
    where
      go :
          (b : Bool)
          → lists_itself c ≡ b
          → validate c ≡ ok tt
          → (if◌then◌else◌ {A = Result Error (Registry × State)} b (err self_reference) (
              ok (
                record r { cache = erase c.name r.cache },
                upsert_cohort_row t db (fill_tenant r current_tenant c),
              )))
            ≡ ok (r', db')
          → IsRegistrable c
            × (r' ≡ record r { cache = erase c.name r.cache })
            × (db' ≡ save db (fill_tenant r current_tenant c))
      go true e v k = cc
      go false e v k = (
        validate-IsRegistrable c v e,
        cc,
        cc (upsert_cohort_row-save db (fill_tenant r current_tenant c)),
      )

  -- A registration that succeeds stores the definition under its tenant and name, drops what is
  -- cached of that name, and leaves all other rows, the cache of all other names and the tenant of
  -- the registry as they are.
  pub register_effect :
      (current_tenant : Str) (r : Registry) (db : State) (c : Cohort) {r' : Registry} {db' : State}
      → register t current_tenant r db c ≡ ok (r', db')
      → let row = fill_tenant r current_tenant c in
        (find db' (cohort_key row) ≡ some row)
        × ((k : Str × Str) → (cohort_key row ≡ k) ⊎ (find db' k ≡ find db k))
        × (lookup c.name r'.cache ≡ none)
        × ((n : Str) → (c.name ≡ n) ⊎ (lookup n r'.cache ≡ lookup n r.cache))
        × (r'.tenant_id ≡ r.tenant_id)
  register_effect current_tenant r db c {r'} {db'} h =
      let (_, er, edb) = register-eq-ok current_tenant r db c h in
      let row = fill_tenant r current_tenant c in
      (
        ap (λ q. find q (cohort_key row)) edb ∙ find-save_self t db row,
        λ k. elim (dec_key (cohort_key row) k) [
          | yes e ↦ inl e
          | no ne ↦ inr (ap (λ q. find q k) edb ∙ find-save_ne t db row k ne)
        ],
        rw er (lookup-erase c.name c.name r.cache ∙ ground arith),
        λ n. elim (dec_str c.name n) [
          | yes e ↦ inl e
          | no ne ↦ inr (rw er (lookup-erase c.name n r.cache ∙ ground arith))
        ],
        ap Registry.tenant_id er,
      )

  -- A registration that succeeds keeps every row well-formed: if every cohort that is stored had a name and
  -- the fields of its type before, a property to match by or a known operator with at least two operands,
  -- none of which is the name of the cohort, then every cohort has them after.
  pub register-IsRegistrable :
      (current_tenant : Str) (r : Registry) (db : State) (c : Cohort) {r' : Registry} {db' : State}
      → ((k : Str × Str) (row : Cohort) → find db k ≡ some row → IsRegistrable row)
      → register t current_tenant r db c ≡ ok (r', db')
      → (k : Str × Str) (row : Cohort) → find db' k ≡ some row
      → IsRegistrable row
  register-IsRegistrable current_tenant r db c {r'} {db'} all h k row found =
      let (checked, _, edb) = register-eq-ok current_tenant r db c h in
      let new = fill_tenant r current_tenant c in
      let after = sym (ap (λ q. find q k) edb) ∙ found in
      ⊎_elim (λ e. subst IsRegistrable e (fill_tenant-IsRegistrable r current_tenant c checked))
        (all k row) (find-save_inv t db new k after)
