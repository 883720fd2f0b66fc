-- ===== src/Rbac/Role.antt =====
-- internal/rbac/role.go: actions, rules, roles, and the checks of a role against a request.
pub mod Access
pub mod Validation
use Prim.Native.Nat.{ℕ}
use mathlib.Core.Bool.{Bool, true, false, ◌||◌, ◌&&◌, not}
use mathlib.Core.Option.{Option, none, some}
use mathlib.Core.List.{List, [], ◌∷◌}
use grlx.Common.{
  Str, str, dec_str, ◌==◌, has_prefix, drop, size, contains, keep, Result, ok, err, ◌>>=◌, ◌>>◌,
  if◌then◌else◌,
}
use grlx.Rbac.Error.{Error, unknown_action, role_name_required, invalid_scope}

abbrev pub Action : Type 0
Action = Str

abbrev pub action_admin : Action
action_admin = str "admin"

abbrev pub action_view : Action
action_view = str "view"

abbrev pub action_cook : Action
action_cook = str "cook"

abbrev pub action_cmd : Action
action_cmd = str "cmd"

abbrev pub action_shell : Action
action_shell = str "shell"

abbrev pub action_test : Action
action_test = str "test"

abbrev pub action_props : Action
action_props = str "props"

abbrev pub action_job_admin : Action
action_job_admin = str "job_admin"

abbrev pub action_pki : Action
action_pki = str "pki"

abbrev pub action_user_read : Action
action_user_read = str "user_read"

abbrev pub all_actions : List Action
all_actions =
    action_admin ∷ action_view ∷ action_cook ∷ action_cmd ∷ action_shell ∷ action_test
    ∷ action_props ∷ action_job_admin ∷ action_pki ∷ action_user_read ∷ []

-- The loop of `IsValidAction` is a search of `AllActions`.
unfoldable pub is_valid_action : Action → Bool
unfolding contains
is_valid_action a = contains all_actions a

pub record Rule : Type 0 where
  pub action : Action
  pub scope : Str

pub record Role : Type 0 where
  pub name : Str
  pub rules : List Rule
  pub tenant_id : Str

-- `routeActions`, a map of route names to the action that each requires.
abbrev pub route_actions : List (Str × Action)
route_actions =
    (str "GetCertificate", action_view)
    ∷ (str "PutNKey", action_view)
    ∷ (str "GetVersion", action_view)
    ∷ (str "ListCohorts", action_view)
    ∷ (str "ListSprouts", action_view)
    ∷ (str "GetSprout", action_view)
    ∷ (str "ListJobs", action_view)
    ∷ (str "GetJob", action_view)
    ∷ (str "ListJobsForSprout", action_view)
    ∷ (str "GetAllProps", action_view)
    ∷ (str "GetProp", action_view)
    ∷ (str "ListID", action_view)
    ∷ (str "ListRecipes", action_view)
    ∷ (str "GetRecipe", action_view)
    ∷ (str "TestPing", action_test)
    ∷ (str "Cook", action_cook)
    ∷ (str "CmdRun", action_cmd)
    ∷ (str "ShellStart", action_shell)
    ∷ (str "ResolveCohort", action_view)
    ∷ (str "SetProp", action_props)
    ∷ (str "DeleteProp", action_props)
    ∷ (str "CancelJob", action_job_admin)
    ∷ (str "GetID", action_pki)
    ∷ (str "AcceptID", action_pki)
    ∷ (str "RejectID", action_pki)
    ∷ (str "DenyID", action_pki)
    ∷ (str "UnacceptID", action_pki)
    ∷ (str "DeleteID", action_pki)
    ∷ (str "WhoAmI", action_user_read)
    ∷ (str "ListUsers", action_admin)
    ∷ []

-- The action of a route in a table of routes; a route that the table lacks requires admin.
pub action_in : List (Str × Action) → Str → Action
action_in [] route_name = action_admin
action_in ((name, action) ∷ table) route_name =
    if name == route_name then action else action_in table route_name

unfoldable pub route_action : Str → Action
unfolding action_in dec_str
route_action route_name = action_in route_actions route_name

-- The loop of `HasAction` over the rules.
pub any_rule_has : List Rule → Action → Bool
any_rule_has [] action = false
any_rule_has (rule ∷ rules) action =
    if rule.action == action_admin
    then true
    else if rule.action == action
    then true
    else any_rule_has rules action

unfoldable pub has_action : Role → Action → Bool
unfolding any_rule_has
has_action r action = any_rule_has r.rules action

unfoldable pub has_route_access : Role → Str → Bool
unfolding has_action route_action
has_route_access r route_name = has_action r (route_action route_name)

-- What a cohort resolver answers: the members of a named cohort, or an error.
abbrev pub Resolver : Type 0
Resolver = Str → Result Error (List Str)

-- The answer of a resolver at a sprout; a failed resolution counts as no match.
abbrev pub is_member : Result Error (List Str) → Str → Bool
is_member (ok members) sprout_id = contains members sprout_id
is_member (err _) sprout_id = false

-- `resolver` may be nil, which skips cohort scopes.
abbrev pub resolves_to : Option Resolver → Str → Str → Bool
resolves_to none cohort_name sprout_id = false
resolves_to (some resolver) cohort_name sprout_id = is_member (resolver cohort_name) sprout_id

-- The part of the loop body of `HasScopedAccess` behind the action test: whether the scope of the
-- rule covers the sprout.
pub scope_matches : Str → Str → Option Resolver → Bool
scope_matches scope sprout_id resolver =
    if scope == [] || scope == str "*"
    then true
    else if has_prefix (str "sprout:") scope
    then drop (size (str "sprout:")) scope == sprout_id
    else if has_prefix (str "cohort:") scope
    then resolves_to resolver (drop (size (str "cohort:")) scope) sprout_id
    else false

-- The loop of `HasScopedAccess`.
pub any_rule_grants : List Rule → Action → Str → Option Resolver → Bool
unfolding scope_matches
any_rule_grants [] action sprout_id resolver = false
any_rule_grants (rule ∷ rules) action sprout_id resolver =
    let rest = any_rule_grants rules action sprout_id resolver in
    if not (rule.action == action_admin) && not (rule.action == action)
    then rest
    else if scope_matches rule.scope sprout_id resolver
    then true
    else rest

unfoldable pub has_scoped_access : Role → Action → Str → Option Resolver → Bool
unfolding any_rule_grants
has_scoped_access r action sprout_id resolver = any_rule_grants r.rules action sprout_id resolver

unfoldable pub has_scoped_access_multi : Role → Action → List Str → Option Resolver → Bool
has_scoped_access_multi r action [] resolver = true
has_scoped_access_multi r action (id ∷ sprout_ids) resolver =
    if not (has_scoped_access r action id resolver)
    then false
    else has_scoped_access_multi r action sprout_ids resolver

unfoldable pub scope_filter : Role → Action → List Str → Option Resolver → List Str
unfolding keep
scope_filter r action sprout_ids resolver =
    keep (λ id. has_scoped_access r action id resolver) sprout_ids

pub validate_scope : Str → Result Error (Unit {0})
validate_scope scope =
    if scope == [] || scope == str "*"
    then ok tt
    else if has_prefix (str "sprout:") scope
    then (if scope == str "sprout:" then err invalid_scope else ok tt)
    else if has_prefix (str "cohort:") scope
    then (if scope == str "cohort:" then err invalid_scope else ok tt)
    else err invalid_scope

-- The loop of `Role.Validate`.
pub validate_rules : List Rule → Result Error (Unit {0})
unfolding validate_scope
validate_rules [] = ok tt
validate_rules (rule ∷ rules) =
    let rest = validate_rules rules in
    if not (is_valid_action rule.action)
    then err unknown_action
    else validate_scope rule.scope >> rest

unfoldable pub validate : Role → Result Error (Unit {0})
unfolding validate_rules
validate r = if r.name == [] then err role_name_required else validate_rules r.rules

unfoldable pub parse_action : Str → Result Error Action
parse_action s = if not (is_valid_action s) then err unknown_action else ok s
