-- ===== src/Rbac/Cohort.antt =====
-- internal/rbac/cohort.go, the definitions of cohorts: their validation, the matching of property
-- values, and the set operations of compound cohorts.
pub mod Members
use Prim.Native.Nat.{ℕ, zero, suc, compare, Ordering}
use mathlib.Core.Bool.{Bool, true, false, ◌&&◌, ◌||◌, not}
use mathlib.Core.Option.{Option, none, some}
use mathlib.Core.List.{List, [], ◌∷◌}
use grlx.Common.{
  Str, str, dec_str, ◌==◌, has_prefix, has_suffix, contains_part, drop, drop_last, contains, keep,
  Result, ok, err, if◌then◌else◌,
}
use grlx.Rbac.Error.{Error, invalid_cohort, invalid_operator, missing_operands}

-- A type or an operator that the package does not know is an arbitrary other text.
pub data CohortType : Type 0 where
  static dynamic compound : CohortType
  unknown : Str → CohortType

pub data Operator : Type 0 where
  and or except : Operator
  unknown : Str → Operator

pub record DynamicMatch : Type 0 where
  pub prop_name : Str
  pub prop_value : Str

pub record CompoundExpr : Type 0 where
  pub operator : Operator
  pub operands : List Str

pub record Cohort : Type 0 where
  pub name : Str
  pub type : CohortType
  pub members : List Str
  pub match : Option DynamicMatch
  pub compound : Option CompoundExpr
  pub tenant_id : Str

-- Go wraps both ErrInvalidCohort and ErrInvalidOperator here; the model keeps the inner one.
unfoldable pub validate_operator : Operator → Result Error (Unit {0})
validate_operator and = ok tt
validate_operator or = ok tt
validate_operator except = ok tt
validate_operator (Operator.unknown op) = err invalid_operator

unfoldable pub validate_match : Option DynamicMatch → Result Error (Unit {0})
validate_match none = err invalid_cohort
validate_match (some match) = if match.prop_name == [] then err invalid_cohort else ok tt

-- `len(operands) < 2`
abbrev pub has_few : List Str → Bool
has_few [] = true
has_few (x ∷ []) = true
has_few (x ∷ y ∷ xs) = false

unfoldable pub validate_operands : CompoundExpr → Result Error (Unit {0}) → Result Error (Unit {0})
validate_operands expr (err e) = err e
validate_operands expr (ok _) = if has_few expr.operands then err missing_operands else ok tt

unfoldable pub validate_compound : Option CompoundExpr → Result Error (Unit {0})
unfolding validate_operator validate_operands
validate_compound none = err invalid_cohort
validate_compound (some expr) = validate_operands expr (validate_operator expr.operator)

-- The switch of `Validate` on the type of the cohort.
unfoldable pub validate_type : CohortType → Cohort → Result Error (Unit {0})
unfolding validate_match validate_compound
validate_type static c = ok tt
validate_type dynamic c = validate_match c.match
validate_type compound c = validate_compound c.compound
validate_type (CohortType.unknown t) c = err invalid_cohort

unfoldable pub validate : Cohort → Result Error (Unit {0})
unfolding validate_type
validate c = if c.name == [] then err invalid_cohort else validate_type c.type c

-- A property value against a pattern with `*` at its ends.
unfoldable pub matches_prop_value : Str → Str → Bool
unfolding has_prefix has_suffix contains_part
matches_prop_value actual expected =
    if expected == str "*"
    then not (actual == [])
    else if has_prefix (str "*") expected && has_suffix (str "*") expected
    then contains_part (drop_last (drop 1 expected)) actual
    else if has_prefix (str "*") expected
    then has_suffix (drop 1 expected) actual
    else if has_suffix (str "*") expected
    then has_prefix (drop_last expected) actual
    else actual == expected

-- `result[id] = true`
unfoldable pub add : Str → List Str → List Str
unfolding contains
add id set = if contains set id then set else id ∷ set

-- `result[id] = true` for the ids in order, on top of a set.
unfoldable pub add_all : List Str → List Str → List Str
unfolding add
add_all [] set = set
add_all (id ∷ ids) set = add_all ids (add id set)

unfoldable pub resolve_static : Cohort → List Str
unfolding add_all
resolve_static c = add_all c.members []

unfoldable pub intersect : List Str → List Str → List Str
unfolding keep contains
intersect a b = keep (λ id. contains b id) a

unfoldable pub union : List Str → List Str → List Str
unfolding add_all
union a b = add_all b (add_all a [])

unfoldable pub except_set : List Str → List Str → List Str
unfolding keep contains
except_set a b = keep (λ id. not (contains b id)) a

-- The switch of `resolveCompound`, which has no default: an unknown operator keeps the set.
unfoldable pub combine : Operator → List Str → List Str → List Str
unfolding intersect union except_set
combine and result operand_set = intersect result operand_set
combine or result operand_set = union result operand_set
combine except result operand_set = except_set result operand_set
combine (Operator.unknown op) result operand_set = result
