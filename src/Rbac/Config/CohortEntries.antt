-- ===== src/Rbac/Config/CohortEntries.antt =====
-- internal/rbac/config.go: the section of cohorts.
use mathlib.Core.Path.{◌≡◌, subst}
use mathlib.Core.Logic.{inl, inr}
use native.Mathlib.Omega.{arith}
use mathlib.Core.Bool.{false}
use mathlib.Core.Option.{Option, none, some}
use mathlib.Core.List.{List, [], ◌∷◌}
use grlx.Common.{Str, str, ◌==◌, Result, ok, err, ◌>>=◌, ◌>>◌, if◌then◌else◌, Bool-cases, >>=-eq-ok}
use grlx.Common.Table.{Table}
use grlx.Rbac.Error.{Error, invalid_cohort, missing_operands}
use grlx.Rbac.Cohort.{
  CohortType, static, dynamic, compound, Operator, and, or, except, DynamicMatch, CompoundExpr,
  Cohort, validate_operator, has_few, validate,
}
use grlx.Rbac.Registry.{dec_key, cohort_key, Registry, register}
use grlx.Rbac.Config.Values.{
  Value, text, items, texts, table, other, Fields, at, text_at, parse_string_slice,
}

-- `CohortType(typeStr)` and `Operator(opStr)`.
unfoldable pub cohort_type_of : Str → CohortType
cohort_type_of s =
    if s == str "static"
    then static
    else if s == str "dynamic"
    then dynamic
    else if s == str "compound"
    then compound
    else CohortType.unknown s

unfoldable pub operator_of : Str → Operator
operator_of s =
    if s == str "AND"
    then and
    else if s == str "OR"
    then or
    else if s == str "EXCEPT"
    then except
    else Operator.unknown s

-- `parseDynamicMatch` on a map.
pub match_of : Fields → Result Error DynamicMatch
unfolding text_at
match_of m =
    if text_at m (str "prop_name") == []
    then err invalid_cohort
    else ok (record {
      prop_name = text_at m (str "prop_name");
      prop_value = text_at m (str "prop_value");
    })

-- `parseDynamicMatch`
unfoldable pub parse_dynamic_match : Option Value → Result Error DynamicMatch
unfolding match_of
parse_dynamic_match none = err invalid_cohort
parse_dynamic_match (some (table m)) = match_of m
parse_dynamic_match (some (text s)) = err invalid_cohort
parse_dynamic_match (some (items xs)) = err invalid_cohort
parse_dynamic_match (some (texts ss)) = err invalid_cohort
parse_dynamic_match (some other) = err invalid_cohort

-- `parseCompoundExpr` on a map.
pub compound_of : Fields → Result Error CompoundExpr
unfolding text_at operator_of parse_string_slice
compound_of m =
    let op = operator_of (text_at m (str "operator")) in
    let operands = parse_string_slice (at m (str "operands")) in
    validate_operator op
    >> (if has_few operands
        then err missing_operands
        else ok (record { operator = op; operands = operands }))

-- `parseCompoundExpr`
unfoldable pub parse_compound_expr : Option Value → Result Error CompoundExpr
unfolding compound_of
parse_compound_expr none = err invalid_cohort
parse_compound_expr (some (table m)) = compound_of m
parse_compound_expr (some (text s)) = err invalid_cohort
parse_compound_expr (some (items xs)) = err invalid_cohort
parse_compound_expr (some (texts ss)) = err invalid_cohort
parse_compound_expr (some other) = err invalid_cohort

abbrev pub bare : Str → CohortType → Cohort
bare name type = record {
  name = name;
  type = type;
  members = [];
  match = none;
  compound = none;
  tenant_id = [];
}

-- The switch of `parseCohortEntry`.
pub cohort_of : Str → Fields → CohortType → Result Error Cohort
unfolding parse_string_slice parse_dynamic_match parse_compound_expr
cohort_of name m static =
    ok (record (bare name static) { members = parse_string_slice (at m (str "members")) })
cohort_of name m dynamic = parse_dynamic_match (at m (str "match")) >>= λ match.
    ok (record (bare name dynamic) { match = some match })
cohort_of name m compound = parse_compound_expr (at m (str "compound")) >>= λ expr.
    ok (record (bare name compound) { compound = some expr })
cohort_of name m (CohortType.unknown s) = err invalid_cohort

-- `parseCohortEntry`
unfoldable pub parse_cohort_entry : Str → Value → Result Error Cohort
unfolding cohort_of cohort_type_of text_at
parse_cohort_entry name (table m) = cohort_of name m (cohort_type_of (text_at m (str "type")))
parse_cohort_entry name (text s) = err invalid_cohort
parse_cohort_entry name (items xs) = err invalid_cohort
parse_cohort_entry name (texts ss) = err invalid_cohort
parse_cohort_entry name other = err invalid_cohort

module _ (t : Table dec_key cohort_key) (tenant_id : Str) where
  unfoldable pub clear_cohorts : List Cohort → t.State → t.State
  clear_cohorts [] db = db
  clear_cohorts (c ∷ rows) db = clear_cohorts rows (t.delete db (cohort_key c))

  -- The loop of `LoadCohortsFromConfig`: its error, the registry and the table.
  unfoldable pub load_cohort_entries :
      List (Str × Value) → Registry → t.State → Result Error (Unit {0}) × Registry × t.State
  unfolding parse_cohort_entry register
  load_cohort_entries [] r db = (ok tt, r, db)
  load_cohort_entries ((name, v) ∷ entries) r db =
      elim (parse_cohort_entry name v >>= register t tenant_id r db) [
        | err e ↦ (err e, r, db)
        | ok (r', db') ↦ load_cohort_entries entries r' db'
      ]

  -- `LoadCohortsFromConfig`, with a new registry.
  unfoldable pub load_cohorts_from_config :
      List (Str × Value) → t.State → Result Error (Unit {0}) × Registry × t.State
  unfolding clear_cohorts load_cohort_entries
  load_cohorts_from_config section db =
      load_cohort_entries section (record { cache = []; tenant_id = tenant_id })
        (clear_cohorts (t.select db (λ c. c.tenant_id == tenant_id)) db)

match_of-named :
    (m : Fields) (match : DynamicMatch) → match_of m ≡ ok match → (match.prop_name == []) ≡ false
unfolding match_of
match_of-named m match h = elim (Bool-cases (text_at m (str "prop_name") == [])) [
  | inl e ↦ absurd (ground arith)
  | inr e ↦ ground arith
]

compound_of-valid :
    (m : Fields) (expr : CompoundExpr)
    → compound_of m ≡ ok expr
    → (validate_operator expr.operator ≡ ok tt) × (has_few expr.operands ≡ false)
unfolding compound_of
compound_of-valid m expr h = ground arith

parse_dynamic_match-named :
    (v : Option Value) (match : DynamicMatch)
    → parse_dynamic_match v ≡ ok match
    → (match.prop_name == []) ≡ false
unfolding parse_dynamic_match
parse_dynamic_match-named none match h = absurd (cc)
parse_dynamic_match-named (some (table m)) match h = match_of-named m match h
parse_dynamic_match-named (some (text s)) match h = absurd (cc)
parse_dynamic_match-named (some (items xs)) match h = absurd (cc)
parse_dynamic_match-named (some (texts ss)) match h = absurd (cc)
parse_dynamic_match-named (some other) match h = absurd (cc)

parse_compound_expr-valid :
    (v : Option Value) (expr : CompoundExpr)
    → parse_compound_expr v ≡ ok expr
    → (validate_operator expr.operator ≡ ok tt) × (has_few expr.operands ≡ false)
unfolding parse_compound_expr
parse_compound_expr-valid none expr h = absurd (cc)
parse_compound_expr-valid (some (table m)) expr h = compound_of-valid m expr h
parse_compound_expr-valid (some (text s)) expr h = absurd (cc)
parse_compound_expr-valid (some (items xs)) expr h = absurd (cc)
parse_compound_expr-valid (some (texts ss)) expr h = absurd (cc)
parse_compound_expr-valid (some other) expr h = absurd (cc)

dynamic-validate :
    (name : Str) (match : DynamicMatch)
    → (name == []) ≡ false
    → (match.prop_name == []) ≡ false
    → validate (record (bare name dynamic) { match = some match }) ≡ ok tt
unfolding validate
dynamic-validate name match ne named = ground arith

compound-validate :
    (name : Str) (expr : CompoundExpr)
    → (name == []) ≡ false
    → validate_operator expr.operator ≡ ok tt
    → has_few expr.operands ≡ false
    → validate (record (bare name compound) { compound = some expr }) ≡ ok tt
unfolding validate
compound-validate name expr ne op few = ground arith

-- An entry that `parseCohortEntry` accepts is a cohort that `Validate` accepts, if it has a name.
pub parse_cohort_entry-validate :
    (name : Str) (v : Value) (c : Cohort)
    → (name == []) ≡ false
    → parse_cohort_entry name v ≡ ok c
    → validate c ≡ ok tt
unfolding validate parse_cohort_entry
parse_cohort_entry-validate name (table m) c ne h =
    by_type (cohort_type_of (text_at m (str "type"))) h
  where
    ok_inj : {a b : Cohort} → ◌≡◌ {A = Result Error Cohort} (ok a) (ok b) → a ≡ b
    ok_inj e = cc

    by_type : (type : CohortType) → cohort_of name m type ≡ ok c → validate c ≡ ok tt
    by_type static h = ground arith
    by_type dynamic h =
        let (match, first, out) = >>=-eq-ok (parse_dynamic_match (at m (str "match"))) _ h in
        subst (λ x. validate x ≡ ok tt) (ok_inj out)
          (dynamic-validate name match ne
            (parse_dynamic_match-named (at m (str "match")) match first))
    by_type compound h =
        let (expr, first, out) = >>=-eq-ok (parse_compound_expr (at m (str "compound"))) _ h in
        let (op, few) = parse_compound_expr-valid (at m (str "compound")) expr first in
        subst (λ x. validate x ≡ ok tt) (ok_inj out) (compound-validate name expr ne op few)
    by_type (CohortType.unknown s) h = absurd (cc)
parse_cohort_entry-validate name (text s) c ne h = absurd (cc)
parse_cohort_entry-validate name (items xs) c ne h = absurd (cc)
parse_cohort_entry-validate name (texts ss) c ne h = absurd (cc)
parse_cohort_entry-validate name other c ne h = absurd (cc)
