-- ===== src/Saas/Items/Moves.antt =====
-- How the statements of internal/saasapi on the items of a batch move them between statuses.
use mathlib.Core.Path.{◌≡◌, refl, ap, ◌∙◌, sym, subst}
use mathlib.Core.Logic.{◌⊎◌, ◌≢◌, inl, inr}
use mathlib.Core.Bool.{true, false}
use mathlib.Core.Option.{some}
use native.Mathlib.Omega.{arith}
use grlx.Common.{Str, dec_str, Option-cases}
use grlx.Common.Table.{Table, find-save_self, find-save_ne}
use grlx.Saas.Items.{
  Item, ItemStatus, queued, dispatching, running, succeeded, failed, unresponsive_after_update,
  dec_status, terminal, item_key, dec_key, Update, assign, update_item,
}

-- The changes of status that the code makes.
pub data Move : ItemStatus → ItemStatus → Type 0 where
  claimed : Move queued dispatching
  not_taken : Move dispatching queued
  accepted : Move dispatching running
  exited : Move dispatching succeeded
  refused : Move dispatching failed
  finished : Move running succeeded
  job_failed : Move running failed
  gave_up : Move running unresponsive_after_update
  halted : Move queued failed

pub data Moves : ItemStatus → ItemStatus → Type 0 where
  stay : (a : ItemStatus) → Moves a a
  move : (a b c : ItemStatus) → Move a b → Moves b c → Moves a c

pub Moves-trans : (a b c : ItemStatus) → Moves a b → Moves b c → Moves a c
Moves-trans a b c (stay _) n = n
Moves-trans a b c (move _ d _ m ms) n = move a d c m (Moves-trans d b c ms n)

-- No status that is terminal is left.
pub move-terminal : (a b : ItemStatus) → Move a b → terminal a ≡ false
unfolding terminal
move-terminal a b claimed = refl
move-terminal a b not_taken = refl
move-terminal a b accepted = refl
move-terminal a b exited = refl
move-terminal a b refused = refl
move-terminal a b finished = refl
move-terminal a b job_failed = refl
move-terminal a b gave_up = refl
move-terminal a b halted = refl

-- What a later row has of an earlier one of the same item: the columns that say which item it is, a
-- status that moves lead to, and the whole row, unless the row was in the batch and not at an end.
pub record IsLater (batch_id tenant_id : Str) (row later : Item) : Type 0 where
  pub same_item : item_key later ≡ item_key row
  pub same_tenant : later.tenant_id ≡ row.tenant_id
  pub same_sprout : later.sprout_id ≡ row.sprout_id
  pub same_position : later.position ≡ row.position
  pub moves : Moves row.status later.status
  pub changed :
      (later ≡ row)
      ⊎ ((row.batch_id ≡ batch_id) × (row.tenant_id ≡ tenant_id) × (terminal row.status ≡ false))

module _ (batch_id tenant_id : Str) where
  pub IsLater-refl : (row : Item) → IsLater batch_id tenant_id row row
  IsLater-refl row = record {
    same_item = refl;
    same_tenant = refl;
    same_sprout = refl;
    same_position = refl;
    moves = stay row.status;
    changed = inl refl;
  }

  pub IsLater-trans :
      (a b c : Item)
      → IsLater batch_id tenant_id a b
      → IsLater batch_id tenant_id b c
      → IsLater batch_id tenant_id a c
  IsLater-trans a b c p q = record {
    same_item = q.same_item ∙ p.same_item;
    same_tenant = q.same_tenant ∙ p.same_tenant;
    same_sprout = q.same_sprout ∙ p.same_sprout;
    same_position = q.same_position ∙ p.same_position;
    moves = Moves-trans a.status b.status c.status p.moves q.moves;
    changed = elim p.changed [
      | inr there ↦ inr there
      | inl same ↦
          subst
            (λ x.
              (c ≡ x)
              ⊎ ((x.batch_id ≡ batch_id) × (x.tenant_id ≡ tenant_id) × (terminal x.status ≡ false)))
            same q.changed
    ];
  }

  pub IsLater-assign :
      (u : Update) (row : Item)
      → Move row.status u.to
      → row.batch_id ≡ batch_id
      → row.tenant_id ≡ tenant_id
      → IsLater batch_id tenant_id row (assign u row)
  unfolding assign
  IsLater-assign u row m b e = record {
    same_item = refl;
    same_tenant = refl;
    same_sprout = refl;
    same_position = refl;
    moves = move row.status u.to u.to m (stay u.to);
    changed = inr (b, e, move-terminal row.status u.to m);
  }

module _ (t : Table dec_key item_key) where
  open t use {State, find, save}

  -- `updateItem` changes nothing, or the row of the item, which had the status.
  pub update_item-cases :
      (s : State) (item : Item) (from : ItemStatus) (change : Item → Item)
      → (update_item t s item from change ≡ (s, false))
        ⊎ ((row : Item) × (find s (item_key item) ≡ some row)
            × (row.tenant_id ≡ item.tenant_id)
            × (row.status ≡ from)
            × (update_item t s item from change ≡ (save s (change row), true)))
  unfolding update_item
  update_item-cases s item from change = elim (Option-cases (find s (item_key item))) [
    | inl e ↦ inl (rw (update_item, e) refl)
    | inr (row, e) ↦ elim (dec_str row.tenant_id item.tenant_id) [
      | no ne ↦ inl (rw (update_item, e) (ground arith))
      | yes same ↦ elim (dec_status row.status from) [
        | no ne ↦ inl (rw (update_item, e) (ground arith))
        | yes at ↦ inr (row, e, same, at, rw (update_item, e) (ground arith))
      ]
    ]
  ]

  -- A row with another status is left alone.
  pub update_item-stays :
      (s : State) (item : Item) (from : ItemStatus) (change : Item → Item)
      (keeps : (row : Item) → item_key (change row) ≡ item_key row) (k : Str × Str) (row : Item)
      → find s k ≡ some row
      → row.status ≢ from
      → find (update_item t s item from change).0 k ≡ some row
  update_item-stays s item from change keeps k row there ne =
      elim (update_item-cases s item from change) [
        | inl e ↦ ap (λ r. find r.0 k) e ∙ there
        | inr (old, found, same, at, e) ↦ elim (dec_key (item_key item) k) [
          | yes here ↦ absurd (
              let both : some old ≡ some row = sym found ∙ ap (find s) here ∙ there in
              let one : old ≡ row = cc in ne (ap Item.status (sym one) ∙ at))
          | no other ↦
              ap (λ r. find r.0 k) e
              ∙ find-save_ne t s (change old) k
                  (λ p. other (sym (keeps old ∙ t.find-key s (item_key item) found) ∙ p))
              ∙ there
        ]
      ]

  -- Every row of a table is in the next one, and has moved on from what it was.
  abbrev pub Follows : Str → Str → State → State → Type 0
  Follows batch_id tenant_id s s' =
      (k : Str × Str) (row : Item)
      → find s k ≡ some row
      → (later : Item) × (find s' k ≡ some later) × IsLater batch_id tenant_id row later

  pub Follows-refl : (batch_id tenant_id : Str) (s : State) → Follows batch_id tenant_id s s
  Follows-refl batch_id tenant_id s k row e = (row, e, IsLater-refl batch_id tenant_id row)

  pub Follows-trans :
      (batch_id tenant_id : Str) (s s' s'' : State)
      → Follows batch_id tenant_id s s'
      → Follows batch_id tenant_id s' s''
      → Follows batch_id tenant_id s s''
  Follows-trans batch_id tenant_id s s' s'' f g k row e =
      let (mid, found, p) = f k row e in
      let (later, there, q) = g k mid found in
      (later, there, IsLater-trans batch_id tenant_id row mid later p q)

  pub update_item-Follows :
      (batch_id tenant_id : Str) (s : State) (item : Item) (from : ItemStatus)
      (change : Item → Item)
      → item.batch_id ≡ batch_id
      → item.tenant_id ≡ tenant_id
      → ((row : Item)
          → row.status ≡ from
          → row.batch_id ≡ batch_id
          → row.tenant_id ≡ tenant_id
          → IsLater batch_id tenant_id row (change row))
      → Follows batch_id tenant_id s (update_item t s item from change).0
  update_item-Follows batch_id tenant_id s item from change b e moves k row there =
      elim (update_item-cases s item from change) [
        | inl none_there ↦ (row, ap (λ r. find r.0 k) none_there ∙ there, IsLater-refl _ _ row)
        | inr (old, found, same, at, out) ↦
            (let of_item = t.find-key s (item_key item) found in
              let later = moves old at (ap (λ x. x.0) of_item ∙ b) (same ∙ e) in
              elim (dec_key (item_key item) k) [
                | yes here ↦
                    (let both : some old ≡ some row = sym found ∙ ap (find s) here ∙ there in
                      let one : old ≡ row = cc in
                      (
                        change old,
                        ap (λ r. find r.0 k) out
                            ∙ ap (find (save s (change old)))
                                (sym here ∙ sym of_item ∙ sym later.same_item)
                            ∙ find-save_self t s (change old),
                        subst (λ x. IsLater batch_id tenant_id x (change old)) one later,
                      ))
                | no other ↦ (
                  row,
                  ap (λ r. find r.0 k) out
                      ∙ find-save_ne t s (change old) k
                          (λ p. other (sym (later.same_item ∙ of_item) ∙ p))
                      ∙ there,
                  IsLater-refl _ _ row,
                )
              ])
      ]

  -- A row that has the tenant and the status is changed.
  pub update_item-changes :
      (s : State) (item : Item) (from : ItemStatus) (change : Item → Item) (row : Item)
      → find s (item_key item) ≡ some row
      → row.tenant_id ≡ item.tenant_id
      → row.status ≡ from
      → (update_item t s item from change).0 ≡ save s (change row)
  unfolding update_item
  update_item-changes s item from change row there same at = rw (update_item, there) (ground arith)

  -- The rows of other items are left alone.
  pub update_item_ne :
      (s : State) (item : Item) (from : ItemStatus) (change : Item → Item)
      (keeps : (row : Item) → item_key (change row) ≡ item_key row) (k : Str × Str)
      → item_key item ≢ k
      → find (update_item t s item from change).0 k ≡ find s k
  update_item_ne s item from change keeps k ne = elim (update_item-cases s item from change) [
    | inl e ↦ ap (λ r. find r.0 k) e
    | inr (old, found, same, at, e) ↦
        ap (λ r. find r.0 k) e
        ∙ find-save_ne t s (change old) k
            (λ p. ne (sym (keeps old ∙ t.find-key s (item_key item) found) ∙ p))
  ]
