-- ===== src/Saas/PolicyCheck.antt =====
-- internal/saasapi/fleet_update_dispatch.go: the checks that allow a rollout.
use Prim.Native.Nat.{ℕ}
use mathlib.Core.Bool.{Bool, false, ◌||◌, not}
use mathlib.Core.Option.{Option, none, some}
use mathlib.Core.List.{[]}
use grlx.Common.{Str, str, dec_str, ◌==◌, leb, if◌then◌else◌}
use grlx.Saas.Dispatch.{Gate, job_status, dispatch}

-- `TenantUpdatePolicy`; an instant is a number.
pub record TenantUpdatePolicy : Type 0 where
  pub tenant_id : Str
  pub approved_version : Option Str
  pub auto_update : Bool
  pub rollout_window_start : Option ℕ
  pub rollout_window_end : Option ℕ

-- `now.Before(start) || !now.Before(end)`, where the policy has a window.
unfoldable pub is_outside : Option ℕ → Option ℕ → ℕ → Bool
is_outside (some start) (some end) now = not (leb start now) || leb end now
is_outside (some start) none now = false
is_outside none end now = false

abbrev pub is_approved : Option Str → Str → Bool
is_approved none version = false
is_approved (some approved) version = approved == version

abbrev pub withdrawn : Str
withdrawn = str "version_approval_withdrawn"

abbrev pub closed : Str
closed = str "rollout_window_closed"

-- `rolloutPolicyCheck`, of the row of the tenant if it has one: a code, or none for `""`.
unfoldable pub rollout_policy_check : Option TenantUpdatePolicy → Str → ℕ → Option Str
unfolding is_outside dec_str
rollout_policy_check none version now = some withdrawn
rollout_policy_check (some p) version now =
    if not (is_approved p.approved_version version)
    then some withdrawn
    else if is_outside p.rollout_window_start p.rollout_window_end now
    then some closed
    else none

-- `parseUpdateBatchSize`, where none is an omitted value and a refusal.
unfoldable pub parse_update_batch_size : Option ℕ → Option ℕ
parse_update_batch_size none = some 5
parse_update_batch_size (some n) = if not (leb 1 n) || not (leb n 25) then none else some n

-- `parseUpdateGate`
unfoldable pub parse_update_gate : Str → Option Gate
unfolding dec_str
parse_update_gate gate =
    if gate == []
    then some job_status
    else if gate == str "job_status"
    then some job_status
    else if gate == str "dispatch"
    then some dispatch
    else none
