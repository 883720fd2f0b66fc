-- ===== src/Saas/Batches/Creation.antt =====
-- What `createBatch` of internal/saasapi/sprout_actions.go writes, and which items it gives to be sent.
use Prim.Native.Nat.{ℕ, suc}
use mathlib.Core.Path.{◌≡◌, refl, ap, ◌∙◌, sym, subst}
use mathlib.Core.Logic.{◌⊎◌, ◌≢◌, inl, inr}
use mathlib.Core.Bool.{Bool, true}
use mathlib.Core.Option.{Option, none, some}
use mathlib.Core.List.{List, [], ◌∷◌}
use native.Mathlib.Omega.{arith}
use grlx.Common.{
  Str, str, dec_str, keep, mem-keep, test, All, All-mem, All-of_mem, Result, ok, err, Option-cases,
}
use grlx.Common.Dict.{lookup}
use grlx.Common.Table.{Table, find-save_self, find-save_ne}
use grlx.Saas.Items.{Item, ItemStatus, unresolved, queued, failed, dec_status, item_key, dec_key}
use grlx.Saas.Dispatch.{Batch}
use grlx.Saas.Dispatch.Progress.{InBatch}
use grlx.Saas.Actions.{Refusal, conflict}
use grlx.Saas.Batches.{
  Resolved, by_asset, text_at, fresh_item, item_for, items_for, create_each, create_batch,
}

-- A sprout that an item may be sent to: one whose key is accepted and that nothing blocks.
abbrev pub IsReachable : List (Str × Resolved) → List (Str × Str) → Item → Type 0
IsReachable found blocked item =
    (row : Resolved) × (lookup item.asset_id found ≡ some row)
    × (row.sprout_id ≡ item.sprout_id)
    × (row.key_state ≡ str "accepted")
    × (text_at blocked item.sprout_id ≡ [])

unresolved-ne-queued : unresolved ≢ queued
unresolved-ne-queued e = cc

failed-ne-queued : failed ≢ queued
failed-ne-queued e = cc

module _ (batch : Batch) (found : List (Str × Resolved)) (blocked : List (Str × Str)) where
  -- An item of the batch that is queued only if its sprout is reachable.
  abbrev pub IsSound : Item → Type 0
  IsSound item = InBatch batch item × ((item.status ≢ queued) ⊎ IsReachable found blocked item)

  abbrev fresh : ℕ → Str → Str → ItemStatus → Str → Item
  fresh position asset_id sprout_id status code =
      fresh_item batch.id batch.tenant_id position asset_id sprout_id status code

  abbrev pub made : ℕ → Str → Item
  made position asset_id = item_for batch.id batch.tenant_id found blocked position asset_id

  item_for-IsSound : (position : ℕ) (asset_id : Str) → IsSound (made position asset_id)
  unfolding item_for fresh_item
  item_for-IsSound position asset_id = elim (Option-cases (lookup asset_id found)) [
    | inl e ↦
        (let k : made position asset_id ≡ fresh position asset_id [] unresolved [] =
            rw (item_for, e) refl in
          subst IsSound (sym k) ((refl, refl), inl unresolved-ne-queued))
    | inr (row, e) ↦ elim (dec_str row.key_state (str "accepted")) [
      | no ne ↦
          (let k : made position asset_id
                ≡ fresh position asset_id row.sprout_id failed (str "sprout_not_accepted") =
              rw (item_for, e) (ground arith) in
            subst IsSound (sym k) ((refl, refl), inl failed-ne-queued))
      | yes f ↦ elim (dec_str (text_at blocked row.sprout_id) []) [
        | no ne ↦
            (let k : made position asset_id
                  ≡ fresh position asset_id row.sprout_id failed (text_at blocked row.sprout_id) =
                rw (item_for, e) (ground arith) in
              subst IsSound (sym k) ((refl, refl), inl failed-ne-queued))
        | yes g ↦
            (let k : made position asset_id ≡ fresh position asset_id row.sprout_id queued [] =
                rw (item_for, e) (ground arith) in
              subst IsSound (sym k) ((refl, refl), inr (row, e, refl, f, g)))
      ]
    ]
  ]

  pub items_for-IsSound :
      (position : ℕ) (asset_ids : List Str)
      → All IsSound (items_for batch.id batch.tenant_id found blocked position asset_ids)
  unfolding items_for
  items_for-IsSound position [] = tt
  items_for-IsSound position (asset_id ∷ asset_ids) =
      (item_for-IsSound position asset_id, items_for-IsSound (suc position) asset_ids)

module _ (t : Table dec_key item_key) (bt : Table dec_str Batch.id) where
  open t use {State, find, save}

  some_inj : {a b : State} → ◌≡◌ {A = Option State} (some a) (some b) → a ≡ b
  some_inj e = cc

  -- A creation that succeeds found no row with the key of its first item.
  create_each-cons :
      (x : Item) (items : List Item) (s s' : State)
      → create_each t bt (x ∷ items) s ≡ some s'
      → (find s (item_key x) ≡ none) × (create_each t bt items (save s x) ≡ some s')
  unfolding create_each
  create_each-cons x items s s' h = elim (Option-cases (find s (item_key x))) [
    | inr (old, e) ↦
        absurd (let k : create_each t bt (x ∷ items) s ≡ none = rw (create_each, e) refl in cc)
    | inl e ↦ (e, sym (rw (create_each, e) refl) ∙ h)
  ]

  pub create_each-keeps :
      (items : List Item) (s s' : State) (k : Str × Str) (row : Item)
      → create_each t bt items s ≡ some s'
      → find s k ≡ some row
      → find s' k ≡ some row
  unfolding create_each
  create_each-keeps [] s s' k row h there = ap (λ s. find s k) (sym (some_inj h)) ∙ there
  create_each-keeps (x ∷ items) s s' k row h there =
      let (free, rest) = create_each-cons x items s s' h in
      let other : item_key x ≢ k =
        λ e. let both = sym free ∙ ap (find s) e ∙ there in none-ne-some row both in
      create_each-keeps items (save s x) s' k row rest (find-save_ne t s x k other ∙ there)
    where
      none-ne-some : (row : Item) → ◌≢◌ {A = Option Item} none (some row)
      none-ne-some row e = cc

  create_each-stores :
      (items : List Item) (s s' : State)
      → create_each t bt items s ≡ some s'
      → All (λ item. find s' (item_key item) ≡ some item) items
  create_each-stores [] s s' h = tt
  create_each-stores (x ∷ items) s s' h =
      let (free, rest) = create_each-cons x items s s' h in
      (
        create_each-keeps items (save s x) s' (item_key x) x rest (find-save_self t s x),
        create_each-stores items (save s x) s' rest,
      )

  abbrev pub items_of : Batch → List Str → List Resolved → List (Str × Str) → List Item
  items_of batch asset_ids resolved blocked =
      items_for batch.id batch.tenant_id (by_asset resolved []) blocked 0 asset_ids

  abbrev pub is_queued : Item → Bool
  is_queued item = test (dec_status item.status queued)

  ok_inj :
      {a b : bt.State × State × List Item}
      → ◌≡◌ {A = Result Refusal (bt.State × State × List Item)} (ok a) (ok b)
      → a ≡ b
  ok_inj e = cc

  -- A batch that is created is one whose id is free, and so are the keys of its items.
  pub create_batch-parts :
      (batch : Batch) (asset_ids : List Str) (resolved : List Resolved) (blocked : List (Str × Str))
      (batches : bt.State) (s : State) (out : bt.State × State × List Item)
      → create_batch t bt batch asset_ids resolved blocked batches s ≡ ok out
      → (bt.find batches batch.id ≡ none)
        × (create_each t bt (items_of batch asset_ids resolved blocked) s ≡ some out.1)
        × (out.0 ≡ bt.save batches batch)
        × (out.2 ≡ keep is_queued (items_of batch asset_ids resolved blocked))
  unfolding create_batch
  create_batch-parts batch asset_ids resolved blocked batches s out h =
      let items = items_of batch asset_ids resolved blocked in
      let run = create_batch t bt batch asset_ids resolved blocked batches s in
      elim (Option-cases (bt.find batches batch.id)) [
        | inr (old, e) ↦ absurd (let k : run ≡ err conflict = rw (create_batch, e) refl in cc)
        | inl e ↦ elim (Option-cases (create_each t bt items s)) [
          | inl f ↦ absurd (let k : run ≡ err conflict = rw (create_batch, e, f) refl in cc)
          | inr (s', f) ↦
              (let k : run ≡ ok (bt.save batches batch, s', keep is_queued items) =
                  rw (create_batch, e, f) refl in
                let same = ok_inj (sym k ∙ h) in
                (
                  e,
                  f ∙ ap (λ r. some r.1) same,
                  sym (ap (λ r. r.0) same),
                  sym (ap (λ r. r.2) same),
                ))
        ]
      ]

  -- An item that is given to be sent: it has its row, is queued, and its sprout is reachable.
  abbrev pub IsGiven : Batch → List Resolved → List (Str × Str) → State → Item → Type 0
  IsGiven batch resolved blocked s item =
      InBatch batch item
      × (find s (item_key item) ≡ some item)
      × (item.status ≡ queued)
      × IsReachable (by_asset resolved []) blocked item

  queued-status : (x : Item) → is_queued x ≡ true → x.status ≡ queued
  queued-status x h = elim (dec_status x.status queued) [
    | yes e ↦ e
    | no ne ↦ absurd (ground arith)
  ]

  pub create_batch-IsGiven :
      (batch : Batch) (asset_ids : List Str) (resolved : List Resolved) (blocked : List (Str × Str))
      (batches : bt.State) (s : State) (out : bt.State × State × List Item)
      → create_batch t bt batch asset_ids resolved blocked batches s ≡ ok out
      → All (IsGiven batch resolved blocked out.1) out.2
  create_batch-IsGiven batch asset_ids resolved blocked batches s out h =
      let items = items_of batch asset_ids resolved blocked in
      let (free, created, saved, given) =
        create_batch-parts batch asset_ids resolved blocked batches s out h in
      let sound = items_for-IsSound batch (by_asset resolved []) blocked 0 asset_ids in
      let stored = create_each-stores items s out.1 created in
      subst (All (IsGiven batch resolved blocked out.1)) (sym given) (
        All-of_mem (IsGiven batch resolved blocked out.1) (keep is_queued items) (λ x m.
          let (at, queued_there) = (mem-keep is_queued x items).0 m in
          let q = queued-status x queued_there in
          let (within, reach) =
            All-mem (IsSound batch (by_asset resolved []) blocked) x items sound at in
          (
            within,
            All-mem (λ item. find out.1 (item_key item) ≡ some item) x items stored at,
            q,
            elim reach [ inl ne ↦ absurd (ne q) | inr r ↦ r ],
          )))
