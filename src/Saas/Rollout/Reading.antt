-- ===== src/Saas/Rollout/Reading.antt =====
-- What the tests of `awaitWave` in internal/saasapi/fleet_update_dispatch.go say of the items of a wave
-- that were read from the table.
use mathlib.Core.Path.{◌≡◌, sym, subst}
use mathlib.Core.Logic.{◌⊎◌, ◌↔◌, inl, inr}
use mathlib.Core.Bool.{Bool, true, ◌&&◌, not}
use mathlib.Core.Option.{some}
use mathlib.Core.List.{List, [], ◌∷◌, Memᴰ, map}
use mathlib.Core.List.Memᴰ
use native.Mathlib.Omega.{arith}
use grlx.Common.{dec_str, ◌==◌, leb, contains, Bool-cases}
use grlx.Common.Table.{Table}
use grlx.Saas.Items.{Item, ItemStatus, running, succeeded, dec_status, item_key, dec_key}
use grlx.Saas.Dispatch.{Gate, job_status, dispatch, Batch}
use grlx.Saas.Dispatch.Progress.{InBatch}
use grlx.Saas.Rollout.{
  put_by_position, by_position, all_of, is_accepted, is_unsettled, is_passing, load_wave_items,
}

-- The statuses with which an item passes the gate of its rollout.
abbrev pub HasPassed : Gate → ItemStatus → Type 0
HasPassed job_status status = status ≡ succeeded
HasPassed dispatch status = (status ≡ running) ⊎ (status ≡ succeeded)

mem-put_by_position :
    (x y : Item) (items : List Item) → Memᴰ y (put_by_position x items) ↔ Memᴰ y (x ∷ items)
unfolding put_by_position
mem-put_by_position x y [] = (λ m. m, λ m. m)
mem-put_by_position x y (z ∷ items) = elim (Bool-cases (leb x.position z.position)) [
  | inl e ↦ rw e (λ m. m, λ m. m)
  | inr e ↦
      (let (to, from) = mem-put_by_position x y items in
        rw e (
          λ m. elim (Memᴰ.cases_cons m) [
            | inl here ↦ Memᴰ.tail (Memᴰ.head here)
            | inr n ↦ elim (Memᴰ.cases_cons (to n)) [
              | inl here ↦ Memᴰ.head here
              | inr o ↦ Memᴰ.tail (Memᴰ.tail o)
            ]
          ],
          λ m. elim (Memᴰ.cases_cons m) [
            | inl here ↦ Memᴰ.tail (from (Memᴰ.head here))
            | inr n ↦ elim (Memᴰ.cases_cons n) [
              | inl here ↦ Memᴰ.head here
              | inr o ↦ Memᴰ.tail (from (Memᴰ.tail o))
            ]
          ],
        ))
]

mem-by_position : (y : Item) (items : List Item) → Memᴰ y (by_position items) ↔ Memᴰ y items
unfolding by_position
mem-by_position y [] = (λ m. m, λ m. m)
mem-by_position y (x ∷ items) =
    let (to, from) = mem-put_by_position x y (by_position items) in
    let (sorted, unsorted) = mem-by_position y items in
    (
      λ m. elim (Memᴰ.cases_cons (to m)) [
        | inl here ↦ Memᴰ.head here
        | inr n ↦ Memᴰ.tail (sorted n)
      ],
      λ m. elim (Memᴰ.cases_cons m) [
        | inl here ↦ from (Memᴰ.head here)
        | inr n ↦ from (Memᴰ.tail (unsorted n))
      ],
    )

pub all_of-mem :
    (p : Item → Bool) (items : List Item) (x : Item)
    → all_of p items ≡ true
    → Memᴰ x items
    → p x ≡ true
unfolding all_of
all_of-mem p [] x h m = absurd (Memᴰ.not-nil m)
all_of-mem p (y ∷ items) x h m = elim (Memᴰ.cases_cons m) [
  | inl here ↦ subst (λ y. p y ≡ true) (sym here) (ground arith)
  | inr n ↦ all_of-mem p items x (ground arith) n
]

pub accepted-HasPassed : (item : Item) → is_accepted item ≡ true → HasPassed dispatch item.status
accepted-HasPassed item h = elim (dec_status item.status running) [
  | yes e ↦ inl e
  | no ne ↦ elim (dec_status item.status succeeded) [
    | yes e ↦ inr e
    | no no_end ↦ absurd (ground arith)
  ]
]

pub passing-HasPassed :
    (item : Item)
    → not (is_unsettled item) ≡ true
    → is_passing item ≡ true
    → HasPassed job_status item.status
passing-HasPassed item settled h = elim (dec_status item.status succeeded) [
  | yes e ↦ e
  | no ne ↦ absurd (ground arith)
]

-- The condition of `loadWaveItems`.
is_of_wave : Batch → List Item → Item → Bool
unfolding dec_str
is_of_wave batch wave row =
    row.batch_id == batch.id
    && row.tenant_id == batch.tenant_id
    && contains (map Item.asset_id wave) row.asset_id

is_of_wave_iff :
    (batch : Batch) (wave : List Item) (row : Item)
    → (is_of_wave batch wave row ≡ true)
      ↔ (InBatch batch row × (contains (map Item.asset_id wave) row.asset_id ≡ true))
unfolding is_of_wave
is_of_wave_iff batch wave row = elim (dec_str row.batch_id batch.id) [
  | no ne ↦ (λ h. absurd (ground arith), λ ((e, _), _). absurd (ne e))
  | yes b ↦ elim (dec_str row.tenant_id batch.tenant_id) [
    | no ne ↦ (λ h. absurd (ground arith), λ ((_, e), _). absurd (ne e))
    | yes e ↦ (λ h. ((b, e), ground arith), λ (_, h). ground arith)
  ]
]

module _ (t : Table dec_key item_key) where
  open t use {State, find, select, mem-select}

  -- The rows that `loadWaveItems` reads.
  pub mem-load_wave_items :
      (batch : Batch) (wave : List Item) (s : State) (y : Item)
      → Memᴰ y (load_wave_items t batch wave s) ↔ (
          (find s (item_key y) ≡ some y)
          × InBatch batch y
          × (contains (map Item.asset_id wave) y.asset_id ≡ true))
  unfolding load_wave_items is_of_wave
  mem-load_wave_items batch wave s y =
      let (sorted, unsorted) = mem-by_position y (select s (is_of_wave batch wave)) in
      let (to, from) = mem-select s (is_of_wave batch wave) y in
      let (meets, back) = is_of_wave_iff batch wave y in
      (
        λ m.
            let (found, h) = to (sorted m) in let (within, here) = meets h in (found, within, here),
        λ (found, within, here). unsorted (from (found, back (within, here))),
      )

  -- The rows that a request for the status of a batch reads.
  is_of_batch : Batch → Item → Bool
  unfolding dec_str
  is_of_batch batch row = row.batch_id == batch.id && row.tenant_id == batch.tenant_id

  pub mem-batch :
      (batch : Batch) (s : State) (y : Item)
      → Memᴰ y (
          by_position
            (select s (λ row. row.batch_id == batch.id && row.tenant_id == batch.tenant_id)))
      → (find s (item_key y) ≡ some y) × InBatch batch y
  unfolding is_of_batch
  mem-batch batch s y m =
      let (found, h) =
        (mem-select s (is_of_batch batch) y).0
          ((mem-by_position y (select s (is_of_batch batch))).0 m) in
      elim (dec_str y.batch_id batch.id) [
        | no ne ↦ absurd (ground arith)
        | yes b ↦ (found, (b, ground arith))
      ]
