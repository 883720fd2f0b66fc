-- ===== src/Saas/FleetUpdate/Busy.antt =====
-- What `sproutsWithUpdateInProgress` of internal/saasapi/fleet_update_dispatch.go keeps out of a rollout.
use mathlib.Core.Path.{◌≡◌, refl, ap, ◌∙◌, sym, subst}
use mathlib.Core.Logic.{◌⊎◌, ◌≢◌, inl, inr}
use mathlib.Core.Bool.{true, false}
use mathlib.Core.Option.{Option, some}
use mathlib.Core.List.{List, [], ◌∷◌, Memᴰ, map}
use mathlib.Core.List.Memᴰ
use native.Mathlib.Omega.{arith}
use grlx.Common.{Str, str, dec_str, ◌==◌, contains, All-mem, ok, Bool-cases}
use grlx.Common.Dict.{lookup, insert, lookup-insert}
use grlx.Common.Table.{Table}
use grlx.Saas.Items.{
  Item, ItemStatus, unresolved, queued, dispatching, running, succeeded, failed,
  unresponsive_after_update, terminal, item_key, dec_key,
}
use grlx.Saas.Dispatch.{Batch}
use grlx.Saas.Batches.{Resolved, by_asset, text_at}
use grlx.Saas.Batches.Creation.{IsGiven}
use grlx.Saas.FleetUpdate.{
  FleetUpdateRequest, Reads, in_progress, blocked_by, new_batch, is_busy,
  sprouts_with_update_in_progress, create_fleet_update_batch,
}
use grlx.Saas.FleetUpdate.Guards.{create_fleet_update_batch-IsStarted}

lookup_nil : (a : Str) (r : Resolved) → ◌≡◌ {A = Option Resolved} (lookup a []) (some r) → ⊥
unfolding lookup
lookup_nil a r e = cc

-- A row of the ids is one of the rows that they are linked to.
by_asset-mem :
    (a : Str) (rows : List Resolved) (m : List (Str × Resolved)) (r : Resolved)
    → lookup a (by_asset rows m) ≡ some r
    → Memᴰ r rows ⊎ (lookup a m ≡ some r)
unfolding by_asset
by_asset-mem a [] m r h = inr h
by_asset-mem a (row ∷ rows) m r h = elim (by_asset-mem a rows (insert row.asset_id row m) r h) [
  | inl n ↦ inl (Memᴰ.tail n)
  | inr e ↦ elim (Bool-cases (row.asset_id == a)) [
    | inl f ↦
        (let k : some row ≡ some r = sym (lookup-insert row.asset_id a row m ∙ rw f refl) ∙ e in
          let same : r ≡ row = cc in inl (Memᴰ.head same))
    | inr f ↦ inr (sym (lookup-insert row.asset_id a row m ∙ rw f refl) ∙ e)
  ]
]

contains-sprout :
    (r : Resolved) (rows : List Resolved)
    → Memᴰ r rows
    → contains (map Resolved.sprout_id rows) r.sprout_id ≡ true
unfolding contains
contains-sprout r [] m = absurd (Memᴰ.not-nil m)
contains-sprout r (row ∷ rows) m = elim (Memᴰ.cases_cons m) [
  | inl e ↦ (let same = ap Resolved.sprout_id e in ground arith)
  | inr n ↦ (let rest = contains-sprout r rows n in ground arith)
]

-- A sprout with a busy row is blocked.
blocked_by-blocks :
    (busy : List Item) (row : Item)
    → Memᴰ row busy
    → text_at (blocked_by busy) row.sprout_id ≡ in_progress
unfolding lookup
blocked_by-blocks [] row m = absurd (Memᴰ.not-nil m)
blocked_by-blocks (x ∷ busy) row m = elim (Bool-cases (x.sprout_id == row.sprout_id)) [
  | inl e ↦ rw (text_at, e) refl
  | inr ne ↦ elim (Memᴰ.cases_cons m) [
    | inl e ↦ absurd (let same = ap Item.sprout_id e in ground arith)
    | inr n ↦ rw (text_at, ne) (blocked_by-blocks busy row n)
  ]
]

module _ (t : Table dec_key item_key) (bt : Table dec_str Batch.id) where
  open t use {State, find}

  -- A row of an unfinished item of a rollout makes its sprout busy.
  busy_row :
      (batches : bt.State) (tenant_id : Str) (ids : List Str) (row : Item) (b : Batch)
      → row.tenant_id ≡ tenant_id
      → contains ids row.sprout_id ≡ true
      → bt.find batches row.batch_id ≡ some b
      → b.tenant_id ≡ tenant_id
      → b.action_type ≡ str "self_update"
      → terminal row.status ≡ false
      → is_busy t bt batches tenant_id ids row ≡ true
  unfolding is_busy terminal
  busy_row batches tenant_id ids row b e there found f self open_ended = by_status row.status refl
    where
      by_status :
          (status : ItemStatus)
          → row.status ≡ status
          → is_busy t bt batches tenant_id ids row ≡ true
      by_status queued at = rw (is_busy, found) (ground arith)
      by_status dispatching at = rw (is_busy, found) (ground arith)
      by_status running at = rw (is_busy, found) (ground arith)
      by_status unresolved at = absurd (ground arith)
      by_status succeeded at = absurd (ground arith)
      by_status failed at = absurd (ground arith)
      by_status unresponsive_after_update at = absurd (ground arith)

  selected :
      (batches : bt.State) (s : State) (tenant_id : Str) (resolved : List Resolved) (row : Item)
      (k : Str × Str)
      → find s k ≡ some row
      → is_busy t bt batches tenant_id (map Resolved.sprout_id resolved) row ≡ true
      → Memᴰ row (sprouts_with_update_in_progress t bt batches s tenant_id resolved)
  unfolding sprouts_with_update_in_progress
  selected batches s tenant_id resolved row k there is =
      (t.mem-select s (is_busy t bt batches tenant_id (map Resolved.sprout_id resolved)) row).1
        (ap (find s) (t.find-key s k there) ∙ there, is)

  -- A rollout is started with no item for a sprout that a row of another rollout of the tenant is for when
  -- the request looks for updates in progress, unless that row is at an end. Rows that a racing request
  -- writes after that are not seen.
  pub create_fleet_update_batch-terminal :
      (reads : Reads) (id tenant_id : Str) (req : FleetUpdateRequest) (seen_batches : bt.State)
      (seen : State) (batches : bt.State) (s : State)
      (out : bt.State × State × List Item × Batch × Str) (item row : Item) (k : Str × Str)
      (b : Batch)
      → create_fleet_update_batch t bt reads id tenant_id req seen_batches seen batches s ≡ ok out
      → Memᴰ item out.2
      → find seen k ≡ some row
      → row.tenant_id ≡ tenant_id
      → row.sprout_id ≡ item.sprout_id
      → bt.find seen_batches row.batch_id ≡ some b
      → b.tenant_id ≡ tenant_id
      → b.action_type ≡ str "self_update"
      → terminal row.status ≡ true
  create_fleet_update_batch-terminal reads id tenant_id req seen_batches seen batches s out item row
        k b h m there e same found f self =
      let started =
        create_fleet_update_batch-IsStarted t bt reads id tenant_id req seen_batches seen batches s
          out h in
      let resolved = reads.resolve started.asset_ids in
      let busy = sprouts_with_update_in_progress t bt seen_batches seen tenant_id resolved in
      let (_, _, _, (r, looked, of_item, _, free)) =
        All-mem
          (IsGiven t bt (new_batch id tenant_id started.size started.gate) resolved
            (blocked_by busy) out.1)
          item out.2 started.given m in
      elim (Bool-cases (terminal row.status)) [
        | inl done ↦ done
        | inr open_ended ↦
            (let r_there : Memᴰ r resolved =
                first_of (by_asset-mem item.asset_id resolved [] r looked) in
              let listed =
                subst (λ x. contains (map Resolved.sprout_id resolved) x ≡ true)
                  (of_item ∙ sym same) (contains-sprout r resolved r_there) in
              let is =
                busy_row seen_batches tenant_id (map Resolved.sprout_id resolved) row b e listed
                  found f self open_ended in
              let row_there : Memᴰ row busy =
                selected seen_batches seen tenant_id resolved row k there is in
              absurd (
                in_progress-ne-nil (
                  sym (blocked_by-blocks busy row row_there)
                  ∙ ap (text_at (blocked_by busy)) same
                  ∙ free)))
      ]
    where
      in_progress-ne-nil : in_progress ≢ []
      in_progress-ne-nil e = cc

      first_of :
          {r : Resolved} {rows : List Resolved}
          → Memᴰ r rows ⊎ (lookup item.asset_id [] ≡ some r)
          → Memᴰ r rows
      first_of (inl m) = m
      first_of {r} (inr e) = absurd (lookup_nil item.asset_id r e)
