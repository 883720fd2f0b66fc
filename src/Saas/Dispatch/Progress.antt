-- ===== src/Saas/Dispatch/Progress.antt =====
-- What the dispatch of internal/saasapi/sprout_actions.go and the reading of outcomes do to the rows of
-- the items.
use Prim.Native.Nat.{ℕ, zero, suc}
use mathlib.Core.Path.{◌≡◌, refl, ap, ◌∙◌, sym, subst}
use mathlib.Core.Logic.{inl, inr}
use mathlib.Core.Bool.{Bool, true, false}
use mathlib.Core.Option.{Option, none, some}
use mathlib.Core.List.{List, [], ◌∷◌, ◌++◌, Memᴰ, map, append_assoc}
use mathlib.Core.List.Memᴰ
use native.Mathlib.Omega.{arith}
use grlx.Common.{Str, All, All-of_mem, All-mem, Memᴰ-append, Bool-cases}
use grlx.Common.Table.{Table}
use grlx.Saas.Items.{
  Item, ItemStatus, unresolved, queued, dispatching, running, succeeded, failed,
  unresponsive_after_update, terminal, item_key, dec_key, Update, assign, update_item,
}
use grlx.Saas.Items.Moves.{
  Move, claimed, not_taken, accepted, exited, refused, stay, move, IsLater, IsLater-assign,
  update_item-Follows, Follows, Follows-refl, Follows-trans,
}
use grlx.Saas.Dispatch.{
  Batch, Reply, Answer, no_responders, no_reply, replied, accepted_update, reply_update,
  answer_update, claim, Sending, dispatch_item, dispatch_batch,
}

-- The statuses that an answer may give.
abbrev is_answer : ItemStatus → Bool
is_answer unresolved = false
is_answer queued = true
is_answer dispatching = false
is_answer running = true
is_answer succeeded = true
is_answer failed = true
is_answer unresponsive_after_update = false

answer_move : (s : ItemStatus) → is_answer s ≡ true → Move dispatching s
answer_move unresolved h = absurd (cc)
answer_move queued h = not_taken
answer_move dispatching h = absurd (cc)
answer_move running h = accepted
answer_move succeeded h = exited
answer_move failed h = refused
answer_move unresponsive_after_update h = absurd (cc)

accepted_update-is_answer :
    (batch : Batch) (reply : Reply) → is_answer (accepted_update batch reply).to ≡ true
unfolding accepted_update
accepted_update-is_answer batch reply = go reply.result refl
  where
    go : (r : Option ℕ) → reply.result ≡ r → is_answer (accepted_update batch reply).to ≡ true
    go none e = ground arith
    go (some zero) e = ground arith
    go (some (suc n)) e = ground arith

answer_update-is_answer :
    (batch : Batch) (item : Item) (answer : Answer)
    → is_answer (answer_update batch item answer).to ≡ true
unfolding answer_update reply_update
answer_update-is_answer batch item no_responders = refl
answer_update-is_answer batch item no_reply = refl
answer_update-is_answer batch item (replied none) = refl
answer_update-is_answer batch item (replied (some reply)) =
    let accepts = accepted_update-is_answer batch reply in ground arith

-- An item of a batch.
abbrev pub InBatch : Batch → Item → Type 0
InBatch batch item = (item.batch_id ≡ batch.id) × (item.tenant_id ≡ batch.tenant_id)

module _ (t : Table dec_key item_key) (batch : Batch) where
  open t use {State, find}

  claim-IsLater :
      (row : Item)
      → row.status ≡ queued
      → row.batch_id ≡ batch.id
      → row.tenant_id ≡ batch.tenant_id
      → IsLater batch.id batch.tenant_id row (claim row)
  unfolding claim terminal
  claim-IsLater row at b e = record {
    same_item = refl;
    same_tenant = refl;
    same_sprout = refl;
    same_position = refl;
    moves =
        move row.status dispatching dispatching (subst (λ x. Move x dispatching) (sym at) claimed)
          (stay dispatching);
    changed = inr (b, e, rw at refl);
  }

  -- An update of a row that has the status it moves from.
  assign-IsLater :
      (from : ItemStatus) (u : Update)
      → Move from u.to
      → (row : Item) → row.status ≡ from
      → row.batch_id ≡ batch.id
      → row.tenant_id ≡ batch.tenant_id
      → IsLater batch.id batch.tenant_id row (assign u row)
  assign-IsLater from u m row at =
      IsLater-assign batch.id batch.tenant_id u row (subst (λ x. Move x u.to) (sym at) m)

  -- An item of the batch follows from an update with a move.
  pub move-Follows :
      (s : State) (item : Item) (from : ItemStatus) (u : Update)
      → Move from u.to
      → InBatch batch item
      → Follows t batch.id batch.tenant_id s (update_item t s item from (assign u)).0
  move-Follows s item from u m (b, e) =
      update_item-Follows t batch.id batch.tenant_id s item from (assign u) b e
        (assign-IsLater from u m)

  module _ (ask : Item → Answer) where
    pub dispatch_item-Follows :
        (item : Item) (s : Sending t)
        → InBatch batch item
        → Follows t batch.id batch.tenant_id s.items (dispatch_item t ask batch item s).items
    unfolding dispatch_item
    dispatch_item-Follows item s within =
        let first = update_item t s.items item queued claim in
        let u = answer_update batch item (ask item) in
        let m = answer_move u.to (answer_update-is_answer batch item (ask item)) in
        elim (Bool-cases first.1) [
          | inr e ↦ rw e (Follows-refl t batch.id batch.tenant_id s.items)
          | inl e ↦ rw e (
              Follows-trans t batch.id batch.tenant_id s.items first.0
                (update_item t first.0 item dispatching (assign u)).0
                (update_item-Follows t batch.id batch.tenant_id s.items item queued claim within.0
                  within.1 claim-IsLater)
                (move-Follows first.0 item dispatching u m within))
        ]

    pub dispatch_batch-Follows :
        (items : List Item) (s : Sending t)
        → All (InBatch batch) items
        → Follows t batch.id batch.tenant_id s.items (dispatch_batch t ask batch items s).items
    unfolding dispatch_batch
    dispatch_batch-Follows [] s within = Follows-refl t batch.id batch.tenant_id s.items
    dispatch_batch-Follows (item ∷ items) s (here, within) =
        let next = dispatch_item t ask batch item s in
        Follows-trans t batch.id batch.tenant_id s.items next.items
          (dispatch_batch t ask batch items next).items (dispatch_item-Follows item s here)
          (dispatch_batch-Follows items next within)

    dispatch_item_idle :
        (item : Item) (s : Sending t)
        → (update_item t s.items item queued claim).1 ≡ false
        → dispatch_item t ask batch item s ≡ s
    unfolding dispatch_item
    dispatch_item_idle item s e = rw e refl

    dispatch_item_sent :
        (item : Item) (s : Sending t)
        → (update_item t s.items item queued claim).1 ≡ true
        → (dispatch_item t ask batch item s).sent ≡ item_key item ∷ s.sent
    unfolding dispatch_item
    dispatch_item_sent item s e = rw e refl

    -- Requests are sent for items of the wave alone.
    pub dispatch_batch-sent :
        (items : List Item) (s : Sending t)
        → (new : List (Str × Str)) × ((dispatch_batch t ask batch items s).sent ≡ new ++ s.sent)
          × All (λ k. Memᴰ k (map item_key items)) new
    unfolding dispatch_batch
    dispatch_batch-sent [] s = ([], refl, tt)
    dispatch_batch-sent (item ∷ items) s =
        let (new, e, of_rest) = dispatch_batch-sent items (dispatch_item t ask batch item s) in
        let of_all =
          All-of_mem (λ k. Memᴰ k (map item_key (item ∷ items))) new
            (λ k m. Memᴰ.tail (All-mem (λ k. Memᴰ k (map item_key items)) k new of_rest m)) in
        elim (Bool-cases (update_item t s.items item queued claim).1) [
          | inr f ↦ (new, e ∙ ap (λ r. new ++ r.sent) (dispatch_item_idle item s f), of_all)
          | inl f ↦ (
            new ++ item_key item ∷ [],
            e
                ∙ ap (λ r. new ++ r) (dispatch_item_sent item s f)
                ∙ sym (append_assoc new (item_key item ∷ []) s.sent),
            All-of_mem (λ k. Memᴰ k (map item_key (item ∷ items))) (new ++ item_key item ∷ [])
                (λ k m. elim ((Memᴰ-append k new (item_key item ∷ [])).0 m) [
                  | inl n ↦ All-mem (λ k. Memᴰ k (map item_key (item ∷ items))) k new of_all n
                  | inr n ↦ elim (Memᴰ.cases_cons n) [
                    | inl here ↦ Memᴰ.head here
                    | inr none_there ↦ absurd (Memᴰ.not-nil none_there)
                  ]
                ]),
          )
        ]
