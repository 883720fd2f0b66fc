-- ===== src/Saas/UpdatePolicy.antt =====
-- internal/saasapi/fleet_updates.go: the update policy of a tenant, and what a PATCH leaves of it.
pub mod Patching
use Prim.Native.Nat.{ℕ}
use mathlib.Core.Path.{◌≡◌, refl, ap, ◌∙◌, sym, subst}
use mathlib.Core.Logic.{◌⊎◌, ◌≢◌, inl, inr}
use mathlib.Core.Bool.{Bool, true, false, ◌&&◌, ◌||◌, not, false≢true}
use mathlib.Core.Option.{Option, none, some}
use mathlib.Core.List.{[]}
use native.Mathlib.Omega.{arith}
use grlx.Common.{
  Str, str, dec_str, ◌==◌, leb, size, test, Result, ok, err, ◌>>=◌, >>=-eq-ok, Bool-cases,
  Option-cases, if◌then◌else◌,
}
use grlx.Common.Table.{Table, find-save_self, find-save_ne}
use grlx.Saas.Actions.{Spaces}
use grlx.Saas.PolicyCheck.{TenantUpdatePolicy}

-- `patchField`: absent, null or a value.
abbrev pub PatchField {ℓ} : Type ℓ → Type ℓ
PatchField A = Option (Option A)

pub record PatchRequest : Type 0 where
  pub approved_version : PatchField Str
  pub auto_update : PatchField Bool
  pub rollout_window_start : PatchField ℕ
  pub rollout_window_end : PatchField ℕ

pub data Refusal : Type 0 where
  invalid_request unknown_version : Refusal

abbrev is_set {ℓ} : {A : Type ℓ} → PatchField A → Bool
is_set none = false
is_set (some v) = true

-- A field of the policy after the request.
abbrev pub merged {ℓ} : {A : Type ℓ} → PatchField A → Option A → Option A
merged none old = old
merged (some new) old = new

-- `*req.AutoUpdate.Value`, which is only read where it is set and not null.
abbrev pub merged_flag : PatchField Bool → Bool → Bool
merged_flag none old = old
merged_flag (some none) old = old
merged_flag (some (some new)) old = new

abbrev is_null {ℓ} : {A : Type ℓ} → PatchField A → Bool
is_null none = false
is_null (some none) = true
is_null (some (some v)) = false

-- `validateUpdatePolicy`
unfoldable pub validate_window : Option ℕ → Option ℕ → Result Refusal (Unit {0})
validate_window none none = ok tt
validate_window none (some end) = err invalid_request
validate_window (some start) none = err invalid_request
validate_window (some start) (some end) = if not (leb end start) then ok tt else err invalid_request

abbrev pub is_none {ℓ} : {A : Type ℓ} → Option A → Bool
is_none none = true
is_none (some v) = false

unfoldable pub validate_update_policy : TenantUpdatePolicy → Result Refusal (Unit {0})
unfolding validate_window
validate_update_policy p =
    if p.auto_update && is_none p.approved_version
    then err invalid_request
    else validate_window p.rollout_window_start p.rollout_window_end

-- The row that `OnConflict{DoNothing: true}` creates for a tenant without a policy.
abbrev pub default_policy : Str → TenantUpdatePolicy
default_policy tenant_id = record {
  tenant_id = tenant_id;
  approved_version = none;
  auto_update = false;
  rollout_window_start = none;
  rollout_window_end = none;
}

module _ (spaces : Spaces) (is_known : Str → Bool) where
  -- The new approved version of a request, trimmed and in the catalog.
  unfoldable pub check_version : PatchField Str → Result Refusal (PatchField Str)
  unfolding dec_str
  check_version none = ok none
  check_version (some none) = ok (some none)
  check_version (some (some raw)) =
      let v = spaces.trim_space raw in
      if v == [] || not (leb (size v) 64)
      then err invalid_request
      else if not (is_known v)
      then err unknown_version
      else ok (some (some v))

  -- The guards of `PatchUpdatePolicy` on the fields that are there.
  unfoldable pub check_fields : PatchRequest → Result Refusal (Unit {0})
  check_fields req =
      if not (
        is_set req.approved_version
        || is_set req.auto_update
        || is_set req.rollout_window_start
        || is_set req.rollout_window_end)
      then err invalid_request
      else if is_null req.auto_update
      then err invalid_request
      else ok tt

  abbrev pub merge : PatchRequest → PatchField Str → TenantUpdatePolicy → TenantUpdatePolicy
  merge req version p = record p {
    approved_version = merged version p.approved_version;
    auto_update = merged_flag req.auto_update p.auto_update;
    rollout_window_start = merged req.rollout_window_start p.rollout_window_start;
    rollout_window_end = merged req.rollout_window_end p.rollout_window_end;
  }

  module _ (t : Table dec_str TenantUpdatePolicy.tenant_id) where
    open t use {State, find, save}

    -- The row that the transaction locks.
    abbrev pub policy_of : State → Str → TenantUpdatePolicy
    policy_of s tenant_id = elim (find s tenant_id) [ none ↦ default_policy tenant_id | some p ↦ p ]

    -- `PatchUpdatePolicy` for a tenant that exists; a refusal leaves the table as it was.
    unfoldable pub patch_update_policy : Str → PatchRequest → State → Result Refusal State
    unfolding check_fields check_version validate_update_policy
    patch_update_policy tenant_id req s = check_fields req >>= λ _.
        check_version req.approved_version >>= λ version.
        validate_update_policy (merge req version (policy_of s tenant_id)) >>= λ _.
        ok (save s (merge req version (policy_of s tenant_id)))
