-- ===== src/Examples/Roles.antt =====
-- Roles on small inputs.
use mathlib.Core.Path.{◌≡◌, refl}
use mathlib.Core.Logic.{◌↔◌}
use mathlib.Core.Bool.{true}
use mathlib.Core.Option.{none}
use mathlib.Core.List.{[], ◌∷◌, Memᴰ}
use grlx.Common.{All, Str, str, dec_str, keep, has_prefix}
use grlx.Rbac.Role.{
  Rule, Role, action_cook, action_view, has_scoped_access, has_scoped_access_multi, scope_filter,
}
use grlx.Rbac.Role.Access.{
  Covers, Concerns, IsGranted, has_scoped_access_iff, has_scoped_access_multi-scope_filter,
}

-- A role that cooks the sprout `web` and sees all sprouts.
abbrev cook_web : Role
cook_web = record {
  name = str "cook";
  rules =
      record { action = action_cook; scope = str "sprout:web" }
      ∷ record { action = action_view; scope = str "*" }
      ∷ [];
  tenant_id = str "acme";
}

has_scoped_access_iff_example : (has_scoped_access cook_web action_cook (str "web") none ≡ true) ↔ (
    (rule : Rule) × Memᴰ rule cook_web.rules
    × Concerns rule action_cook
    × Covers rule.scope (str "web") none)
has_scoped_access_iff_example = has_scoped_access_iff cook_web action_cook (str "web") none

has_scoped_access_multi-scope_filter_example :
    ((has_scoped_access_multi cook_web action_cook (str "web" ∷ str "db" ∷ []) none ≡ true)
      ↔ All (IsGranted cook_web action_cook none) (str "web" ∷ str "db" ∷ []))
    × ((has_scoped_access_multi cook_web action_cook (str "web" ∷ str "db" ∷ []) none ≡ true) ↔ (
        scope_filter cook_web action_cook (str "web" ∷ str "db" ∷ []) none
        ≡ str "web" ∷ str "db" ∷ []))
    × ((id : Str)
        → Memᴰ id (scope_filter cook_web action_cook (str "web" ∷ str "db" ∷ []) none)
          ↔ (Memᴰ id (str "web" ∷ str "db" ∷ []) × IsGranted cook_web action_cook none id))
has_scoped_access_multi-scope_filter_example =
    has_scoped_access_multi-scope_filter cook_web action_cook (str "web" ∷ str "db" ∷ []) none

-- The filter keeps the sprout that the first rule names.
scope_filter_test :
    scope_filter cook_web action_cook (str "db" ∷ str "web" ∷ []) none ≡ str "web" ∷ []
unfolding scope_filter has_scoped_access keep dec_str has_prefix
scope_filter_test = refl
