-- ===== src/Examples/Policies.antt =====
-- A policy and the sections of its users on small inputs.
use mathlib.Core.Path.{◌≡◌}
use mathlib.Core.Logic.{◌↔◌}
use mathlib.Core.Option.{some}
use mathlib.Core.List.{List, [], ◌∷◌, ◌++◌}
use grlx.Common.{Str, str, ok}
use grlx.Common.Table.{Table}
use grlx.Common.Table.Rows.{rows_table, no_rows}
use grlx.Rbac.Role.{Role, action_view}
use grlx.Rbac.Registry.{dec_key, cohort_key}
use grlx.Rbac.Stores.{role_key, user_key, set}
use grlx.Rbac.Config.Values.{Value, text, texts}
use grlx.Rbac.Config.Unique.{user_pairs, legacy_pairs, validate_user_uniqueness}
use grlx.Rbac.Config.Unique.Apart.{AreApart, validate_user_uniqueness_iff}
use grlx.Rbac.Policy.{validate_policy}
use grlx.Rbac.Policy.Clean.{
  AllHaveRoles, AllHaveCohorts, AllHaveRules, AllHaveUsers, validate_policy_iff,
}

abbrev role_table : Table dec_key role_key
role_table = rows_table dec_key role_key

abbrev user_table : Table dec_key user_key
user_table = rows_table dec_key user_key

abbrev cohort_table : Table dec_key cohort_key
cohort_table = rows_table dec_key cohort_key

-- A role that sees a cohort that nobody made.
abbrev viewer : Role
viewer = record {
  name = str "viewer";
  rules = record { action = action_view; scope = str "cohort:prod" } ∷ [];
  tenant_id = str "acme";
}

roles : role_table.State
roles = role_table.save (no_rows dec_key role_key) viewer

users : user_table.State
users = set user_table (str "acme") (no_rows dec_key user_key) (str "UABC") (str "viewer")

cohorts : cohort_table.State
cohorts = no_rows dec_key cohort_key

validate_policy_iff_example :
    (validate_policy role_table user_table cohort_table roles users cohorts (record {
      roles = some (str "acme");
      users = some (str "acme");
      cohorts = some (str "acme");
    })
      ≡ ok [])
    ↔ (AllHaveRoles role_table user_table cohort_table roles users cohorts
          (str "acme")
          (str "acme")
          (str "acme")
        × AllHaveCohorts role_table user_table cohort_table roles users cohorts
            (str "acme")
            (str "acme")
            (str "acme")
        × AllHaveRules role_table user_table cohort_table roles users cohorts
            (str "acme")
            (str "acme")
            (str "acme")
        × AllHaveUsers role_table user_table cohort_table roles users cohorts
            (str "acme")
            (str "acme")
            (str "acme"))
validate_policy_iff_example =
    validate_policy_iff role_table user_table cohort_table roles users cohorts (str "acme")
      (str "acme") (str "acme")

-- Two users, one of each section.
abbrev one_user : List (Str × Value)
one_user = (str "admin", text (str "UABC")) ∷ []

abbrev one_pubkey : List (Str × Value)
one_pubkey = (str "viewer", texts (str "UDEF" ∷ [])) ∷ []

validate_user_uniqueness_iff_example :
    (validate_user_uniqueness one_user one_pubkey ≡ ok tt)
    ↔ (AreApart (user_pairs one_user ++ legacy_pairs one_pubkey))
validate_user_uniqueness_iff_example = validate_user_uniqueness_iff one_user one_pubkey
