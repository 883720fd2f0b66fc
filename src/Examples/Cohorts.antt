-- ===== src/Examples/Cohorts.antt =====
-- Cohorts on small inputs.
use mathlib.Core.Path.{◌≡◌, refl, sym, ap}
use mathlib.Core.Logic.{◌↔◌, ◌≢◌, ◌⊎◌, inl, inr}
use mathlib.Core.Bool.{true}
use mathlib.Core.Option.{none, some}
use mathlib.Core.List.{List, [], ◌∷◌, Memᴰ}
use grlx.Common.{Str, str, dec_str, contains, keep, ok, err, ◌==◌, if◌then◌else◌}
use grlx.Common.Dict.{lookup, erase, insert}
use grlx.Common.Sort.{IsSorted, sort_strings, put, str_leb}
use grlx.Common.Table.{Table, upsert, find-save_inv}
use grlx.Common.Table.Rows.{rows_table, no_rows, none-ne-some, find_in, remove}
use grlx.Rbac.Error.{out_of_fuel}
use grlx.Rbac.Cohort.{
  Cohort, CompoundExpr, static, compound, and, validate, combine, resolve_static,
}
use grlx.Rbac.Registry.{
  cohort_key, dec_key, Registry, compute_depth, validate_references_all, resolve, register,
  fill_tenant, get_cohort, operands_of, compute_depth, errors_of, list_cohorts, named,
  missing_operand_errors, max_child, compound_depth,
}
use grlx.Rbac.Registry.Resolution.{AllValid, resolve_of_validated}
use grlx.Rbac.Registry.Operands.{Each, Meaning}
use grlx.Rbac.Registry.Compound.{resolve_compound_members}
use grlx.Rbac.Registry.Totality.{references_and_resolve_end}
use grlx.Rbac.Registry.Refresh.{
  RefreshResult, refresh, cache_members, get_cached_membership, refresh-cached,
}
use grlx.Rbac.Registry.Register.{IsRegistrable, register_effect, register-IsRegistrable}

abbrev table : Table dec_key cohort_key
table = rows_table dec_key cohort_key

abbrev acme : Registry
acme = record { cache = []; tenant_id = str "acme" }

abbrev web : Cohort
web = record {
  name = str "web";
  type = static;
  members = str "w1" ∷ str "w2" ∷ [];
  match = none;
  compound = none;
  tenant_id = str "acme";
}

abbrev first : Cohort
first = record {
  name = str "first";
  type = static;
  members = str "w1" ∷ str "d1" ∷ [];
  match = none;
  compound = none;
  tenant_id = str "acme";
}

abbrev both_expr : CompoundExpr
both_expr = record { operator = and; operands = str "web" ∷ str "first" ∷ [] }

abbrev both : Cohort
both = record {
  name = str "both";
  type = compound;
  members = [];
  match = none;
  compound = some both_expr;
  tenant_id = str "acme";
}

abbrev no_prop : Str → Str → Str → Str
no_prop tenant_id sprout_id name = []

abbrev none_there : Table.State table
none_there = no_rows dec_key cohort_key

abbrev three : Table.State table
three = table.save (table.save (table.save none_there web) first) both

abbrev ids : List Str
ids = str "w1" ∷ str "w2" ∷ str "d1" ∷ []

references_and_resolve_end_example :
    (¬ Memᴰ out_of_fuel (validate_references_all table acme three))
    × (resolve table no_prop acme three (str "both") ids ≢ err out_of_fuel)
references_and_resolve_end_example =
    references_and_resolve_end table no_prop acme three (str "both") ids

resolve_compound_members_example :
    (sets : List (List Str)) × Each
      (λ o. resolve table no_prop acme three o ids)
      both_expr.operands
      sets
    × ((x : Str) → (contains (str "w1" ∷ []) x ≡ true) ↔ Meaning both_expr.operator x sets)
unfolding resolve rows_table dec_key contains get_cohort combine resolve_static
resolve_compound_members_example =
    resolve_compound_members table no_prop acme three (str "both") ids {c = both} {expr = both_expr}
      {ms = str "w1" ∷ []} refl refl refl refl

three-AllValid : AllValid table three (str "acme")
unfolding validate no_rows rows_table dec_str
three-AllValid name c h =
    elim (find-save_inv table (table.save (table.save none_there web) first) both (str "acme", name)
      h) [
        | inl e ↦ ap validate (sym e)
        | inr h ↦
            elim (find-save_inv table (table.save none_there web) first (str "acme", name) h) [
              | inl e ↦ ap validate (sym e)
              | inr h ↦ elim (find-save_inv table none_there web (str "acme", name) h) [
                | inl e ↦ ap validate (sym e)
                | inr h ↦ absurd (none-ne-some dec_key cohort_key c h)
              ]
            ]
      ]

resolve_of_validated_example :
    (ms : List Str) × (resolve table no_prop acme three (str "both") ids ≡ ok ms)
unfolding validate_references_all rows_table dec_str dec_key operands_of compute_depth errors_of
    list_cohorts named missing_operand_errors max_child compound_depth contains keep no_rows
resolve_of_validated_example =
    resolve_of_validated table no_prop acme three (str "both") ids {c = both} three-AllValid refl
      refl

register_effect_example :
    let row = fill_tenant acme (str "root") web in
    (table.find (table.save none_there web) (cohort_key row) ≡ some row)
    × ((k : Str × Str)
        → (cohort_key row ≡ k)
          ⊎ (table.find (table.save none_there web) k ≡ table.find none_there k))
    × (lookup (str "web") acme.cache ≡ none)
    × ((n : Str) → (str "web" ≡ n) ⊎ (lookup n acme.cache ≡ lookup n acme.cache))
    × (acme.tenant_id ≡ acme.tenant_id)
unfolding register validate dec_str erase rows_table upsert no_rows
register_effect_example =
    register_effect table (str "root") acme none_there web {r' = acme}
      {db' = table.save none_there web} refl

register-IsRegistrable_example : IsRegistrable web
unfolding register rows_table no_rows find_in remove dec_key dec_str validate erase upsert
register-IsRegistrable_example =
    register-IsRegistrable table (str "root") acme none_there web {r' = acme}
      {db' = table.save none_there web} (λ k row h. absurd (none-ne-some dec_key cohort_key row h))
      refl (str "acme", str "web") web refl

abbrev acme_with_web : Registry
acme_with_web = record {
  cache = (str "web", record { members = str "w1" ∷ str "w2" ∷ []; last_refreshed = 7 }) ∷ [];
  tenant_id = str "acme";
}

abbrev refresh_result : RefreshResult
refresh_result = record { name = str "web"; members = str "w1" ∷ str "w2" ∷ []; last_refreshed = 7 }

refresh-cached_example :
    (members : List Str) × (resolve table no_prop acme three (str "web") ids ≡ ok members)
    × IsSorted refresh_result.members
    × ((id : Str) → contains refresh_result.members id ≡ contains members id)
    × ((other : Str)
        → get_cached_membership acme_with_web other ≡ (
            if str "web" == other
            then some (record { members = refresh_result.members; last_refreshed = 7 })
            else get_cached_membership acme other))
unfolding refresh cache_members insert resolve rows_table dec_key contains get_cohort combine
    resolve_static sort_strings put str_leb
refresh-cached_example =
    refresh-cached table no_prop 7 three ids acme acme_with_web (str "web") refresh_result refl
