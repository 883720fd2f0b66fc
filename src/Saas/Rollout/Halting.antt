-- ===== src/Saas/Rollout/Halting.antt =====
-- `haltRollout` of internal/saasapi/fleet_update_dispatch.go: what it does to the rows.
use mathlib.Core.Path.{◌≡◌, refl, sym, subst}
use mathlib.Core.Logic.{◌≢◌, inl, inr}
use mathlib.Core.Bool.{Bool, true, ◌&&◌}
use mathlib.Core.Option.{some}
use native.Mathlib.Omega.{arith}
use grlx.Common.{Str, dec_str, ◌==◌, test}
use grlx.Common.Table.{Table}
use grlx.Common.Table.Bulk.{find-update_where, find-update_where_meets}
use grlx.Saas.Items.{Item, queued, failed, dec_status, item_key, dec_key, failed_update, assign}
use grlx.Saas.Items.Moves.{Move, halted, Follows, IsLater-refl, IsLater-assign}
use grlx.Saas.Dispatch.{Batch}
use grlx.Saas.Dispatch.Progress.{InBatch}
use grlx.Saas.Rollout.{halt_rollout}

module _ (t : Table dec_key item_key) (batch : Batch) (code : Str) where
  open t use {State, find}

  -- The condition of the update.
  waits_in : Item → Bool
  unfolding dec_str dec_status
  waits_in row =
      row.batch_id == batch.id
      && row.tenant_id == batch.tenant_id
      && test (dec_status row.status queued)

  waits_in-true : (row : Item) → InBatch batch row → row.status ≡ queued → waits_in row ≡ true
  unfolding waits_in
  waits_in-true row (b, e) at = ground arith

  true-waits_in : (row : Item) → waits_in row ≡ true → InBatch batch row × (row.status ≡ queued)
  unfolding waits_in
  true-waits_in row h = elim (dec_str row.batch_id batch.id) [
    | no ne ↦ absurd (ground arith)
    | yes b ↦ elim (dec_str row.tenant_id batch.tenant_id) [
      | no ne ↦ absurd (ground arith)
      | yes e ↦ elim (dec_status row.status queued) [
        | no ne ↦ absurd (ground arith)
        | yes at ↦ ((b, e), at)
      ]
    ]
  ]

  pub halt-Follows :
      (s : State) → Follows t batch.id batch.tenant_id s (halt_rollout t batch code s)
  unfolding halt_rollout waits_in assign
  halt-Follows s k row there =
      elim (find-update_where t (assign (failed_update code)) (λ r. refl) s waits_in k row there) [
        | inr same ↦ (row, same, IsLater-refl batch.id batch.tenant_id row)
        | inl (meets, changed) ↦
            (let ((b, e), at) = true-waits_in row meets in
              (
                assign (failed_update code) row,
                changed,
                IsLater-assign batch.id batch.tenant_id (failed_update code) row
                    (subst (λ x. Move x failed) (sym at) halted) b e,
              ))
      ]

  -- A row that is not queued is left alone.
  halt-keeps :
      (s : State) (k : Str × Str) (row : Item)
      → find s k ≡ some row
      → row.status ≢ queued
      → find (halt_rollout t batch code s) k ≡ some row
  unfolding halt_rollout waits_in assign
  halt-keeps s k row there ne =
      elim (find-update_where t (assign (failed_update code)) (λ r. refl) s waits_in k row there) [
        | inr same ↦ same
        | inl (meets, changed) ↦ absurd (ne (true-waits_in row meets).1)
      ]

  -- No row of the batch is queued any longer.
  pub halt-clears :
      (s : State) (k : Str × Str) (row : Item)
      → find s k ≡ some row
      → InBatch batch row
      → (later : Item) × (find (halt_rollout t batch code s) k ≡ some later)
        × (later.status ≢ queued)
  unfolding halt_rollout waits_in assign
  halt-clears s k row there within = elim (dec_status row.status queued) [
    | no ne ↦ (row, halt-keeps s k row there ne, ne)
    | yes at ↦ (
      assign (failed_update code) row,
      find-update_where_meets t (assign (failed_update code)) (λ r. refl) s waits_in k row there
          (waits_in-true row within at),
      failed-ne-queued,
    )
  ]
    where
      failed-ne-queued : failed ≢ queued
      failed-ne-queued e = cc
