-- ===== src/Saas/FleetUpdate.antt =====
-- internal/saasapi/fleet_update_dispatch.go: `CreateFleetUpdateBatch`, up to the rollout that it starts.
pub mod Busy
pub mod Guards
pub mod Rollout
use Prim.Native.Nat.{ℕ}
use mathlib.Core.Path.{◌≡◌, refl, ap, ◌∙◌, sym, subst}
use mathlib.Core.Logic.{◌⊎◌, inl, inr}
use mathlib.Core.Bool.{Bool, true, false, ◌&&◌, ◌||◌, not}
use mathlib.Core.Option.{Option, none, some}
use mathlib.Core.List.{List, [], ◌∷◌, Memᴰ, map}
use mathlib.Core.List.Memᴰ
use native.Mathlib.Omega.{arith}
use grlx.Common.{
  Str, str, dec_str, ◌==◌, leb, size, contains, test, Result, ok, err, ◌>>=◌, if◌then◌else◌,
}
use grlx.Common.Table.{Table}
use grlx.Saas.Items.{Item, ItemStatus, queued, dispatching, running, dec_status, item_key, dec_key}
use grlx.Saas.Dispatch.{Gate, Batch}
use grlx.Saas.Actions.{Refusal, Spaces, parse_action_asset_ids}
use grlx.Saas.PolicyCheck.{
  TenantUpdatePolicy, rollout_policy_check, parse_update_batch_size, parse_update_gate,
}
use grlx.Saas.Batches.{Resolved, create_batch}

-- The answers to a request that starts no rollout.
pub data Response : Type 0 where
  not_found tenant_not_active unknown_version not_allowed internal_error : Response
  refused : Refusal → Response
  unsupported : Response

-- `fleetUpdateRequest`
pub record FleetUpdateRequest : Type 0 where
  pub asset_ids : List Str
  pub target_version : Str
  pub batch_size : Option ℕ
  pub gate : Str

-- What the handler reads: the flag, whether the tenant is active, its policy, the time, the catalog with
-- the parameters that `selfUpdateParams` makes of a usable entry, and the rows that the ids are linked to.
pub record Reads : Type 0 where
  pub spaces : Spaces
  pub enabled : Bool
  pub is_active : Bool
  pub policy : Option TenantUpdatePolicy
  pub now : ℕ
  pub in_catalog : Str → Bool
  pub is_usable : Str → Bool
  pub resolve : List Str → List Resolved

abbrev pub or_refuse {ℓ} : {A : Type ℓ} → Response → Option A → Result Response A
or_refuse response none = err response
or_refuse response (some a) = ok a

abbrev pub guard : Bool → Response → Result Response (Unit {0})
guard b response = if b then ok tt else err response

abbrev pub parsed {ℓ} : {A : Type ℓ} → Result Refusal A → Result Response A
parsed (ok a) = ok a
parsed (err e) = err (refused e)

abbrev pub in_progress : Str
in_progress = str "update_already_in_progress"

-- `blocked[sproutID] = errCodeUpdateInProgress`, for each busy sprout.
abbrev pub blocked_by : List Item → List (Str × Str)
blocked_by busy = map (λ (item : Item). (item.sprout_id, in_progress)) busy

-- `len(version)` between 1 and `maxFleetVersionLen`
abbrev pub is_version : Str → Bool
is_version version = not (version == []) && leb (size version) 64

-- `strings.TrimSpace(req.TargetVersion)`
abbrev pub version_of : Reads → FleetUpdateRequest → Str
version_of reads req = reads.spaces.trim_space req.target_version

-- The batch of a rollout.
abbrev pub new_batch : Str → Str → ℕ → Gate → Batch
new_batch id tenant_id batch_size gate = record {
  id = id;
  tenant_id = tenant_id;
  action_type = str "self_update";
  rollout_batch_size = batch_size;
  rollout_gate = gate;
}

abbrev pub allowed : Option Str → Result Response (Unit {0})
allowed none = ok tt
allowed (some code) = err not_allowed

module _ (t : Table dec_key item_key) (bt : Table dec_str Batch.id) where
  -- The rows of `sproutsWithUpdateInProgress`: unfinished items of rollouts for one of the sprouts.
  unfoldable pub is_busy : bt.State → Str → List Str → Item → Bool
  unfolding contains dec_str dec_status
  is_busy batches tenant_id ids row =
      row.tenant_id == tenant_id
      && (test (dec_status row.status queued)
          || test (dec_status row.status dispatching)
          || test (dec_status row.status running))
      && contains ids row.sprout_id
      && elim (bt.find batches row.batch_id) [
        | none ↦ false
        | some b ↦ b.tenant_id == tenant_id && b.action_type == str "self_update"
      ]

  unfoldable pub sprouts_with_update_in_progress :
      bt.State → t.State → Str → List Resolved → List Item
  unfolding is_busy
  sprouts_with_update_in_progress batches s tenant_id rows =
      t.select s (is_busy batches tenant_id (map Resolved.sprout_id rows))

  -- `CreateFleetUpdateBatch`, with the id that `newID` makes; what it gives starts `runRollout`. The
  -- statement that looks for updates in progress is not in the transaction that writes: it reads the
  -- tables `seen_batches` and `seen`, and the rows are written to `batches` and `s`, which other requests
  -- may have changed since.
  unfoldable pub create_fleet_update_batch :
      Reads
      → Str
      → Str
      → FleetUpdateRequest
      → bt.State
      → t.State
      → bt.State
      → t.State
      → Result Response (bt.State × t.State × List Item × Batch × Str)
  unfolding parse_action_asset_ids parse_update_batch_size parse_update_gate rollout_policy_check
      sprouts_with_update_in_progress create_batch
  create_fleet_update_batch reads id tenant_id req seen_batches seen batches s = do
    _ ← guard reads.enabled not_found
    _ ← guard reads.is_active tenant_not_active
    asset_ids ← parsed (parse_action_asset_ids reads.spaces req.asset_ids)
    batch_size ← or_refuse unsupported (parse_update_batch_size req.batch_size)
    gate ← or_refuse unsupported (parse_update_gate req.gate)
    _ ← guard (is_version (version_of reads req)) unsupported
    _ ← guard (reads.in_catalog (version_of reads req)) unknown_version
    _ ← guard (reads.is_usable (version_of reads req)) internal_error
    _ ← allowed (rollout_policy_check reads.policy (version_of reads req) reads.now)
    made ← parsed (
        create_batch t bt (new_batch id tenant_id batch_size gate) asset_ids
          (reads.resolve asset_ids)
          (blocked_by
            (sprouts_with_update_in_progress seen_batches seen tenant_id (reads.resolve asset_ids)))
          batches s)
    ok (made.0, made.1, made.2, new_batch id tenant_id batch_size gate, version_of reads req)
