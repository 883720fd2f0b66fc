-- ===== src/Saas/Dispatch/Outcomes.antt =====
-- What `refreshItems` of internal/saasapi/sprout_actions.go does to the rows and to the copies of them in
-- memory.
use mathlib.Core.Path.{◌≡◌, refl, ap, ◌∙◌, sym, subst}
use mathlib.Core.Logic.{◌⊎◌, ◌≢◌, inl, inr}
use mathlib.Core.Bool.{true, false, true≢false}
use mathlib.Core.Option.{none, some}
use mathlib.Core.List.{List, [], ◌∷◌, map}
use native.Mathlib.Omega.{arith}
use grlx.Common.{Str, All, Bool-cases, Option-cases, if◌then◌else◌}
use grlx.Common.Table.{Table}
use grlx.Saas.Items.{
  Item, running, succeeded, failed, dec_status, item_key, dec_key, Update, assign, update_item,
}
use grlx.Saas.Items.Moves.{Move, finished, update_item_ne, Follows, Follows-refl, Follows-trans}
use grlx.Saas.Dispatch.{
  Batch, JobOutcome, job_running, job_succeeded, job_failed, outcome_update, awaits_job,
  refresh_item, refresh_each,
}
use grlx.Saas.Dispatch.Progress.{InBatch, move-Follows}

module _ (t : Table dec_key item_key) (outcomes : Item → JobOutcome) where
  open t use {State, find}

  -- The copy of an item after the loop.
  unfoldable pub after : Item → Item
  unfolding awaits_job outcome_update
  after item =
      if awaits_job item
      then elim (outcome_update (outcomes item)) [ none ↦ item | some u ↦ assign u item ]
      else item

  -- The update for an outcome is a move from running.
  outcome_update-move :
      (o : JobOutcome) (u : Update)
      → outcome_update o ≡ some u
      → Move running u.to × (u.to ≢ running)
  unfolding outcome_update
  outcome_update-move job_running u e = absurd (cc)
  outcome_update-move job_succeeded u e =
      let to : u.to ≡ succeeded = cc in
      (subst (Move running) (sym to) finished, λ p. succeeded-ne-running (sym to ∙ p))
    where
      succeeded-ne-running : succeeded ≢ running
      succeeded-ne-running e = cc
  outcome_update-move job_failed u e =
      let to : u.to ≡ failed = cc in
      (subst (Move running) (sym to) Move.job_failed, λ p. failed-ne-running (sym to ∙ p))
    where
      failed-ne-running : failed ≢ running
      failed-ne-running e = cc

  -- A round leaves the item alone, or moves its row and its copy alike.
  abbrev pub Round : Item → State → Type 0
  Round item s =
      ((refresh_item t outcomes item s ≡ (s, item)) × (after item ≡ item))
      ⊎ ((u : Update) × Move running u.to
          × (u.to ≢ running)
          × (item.status ≡ running)
          × (after item ≡ assign u item)
          × (refresh_item t outcomes item s
              ≡ ((update_item t s item running (assign u)).0, assign u item)))

  awaiting : (item : Item) → awaits_job item ≡ true → item.status ≡ running
  unfolding awaits_job
  awaiting item h = elim (dec_status item.status running) [
    | yes e ↦ e
    | no ne ↦ absurd (let k : awaits_job item ≡ false = ground arith in true≢false (sym h ∙ k))
  ]

  pub refresh_item-cases : (item : Item) (s : State) → Round item s
  unfolding refresh_item after
  refresh_item-cases item s = elim (Bool-cases (awaits_job item)) [
    | inr e ↦ inl (rw (refresh_item, e) refl, rw (after, e) refl)
    | inl e ↦ elim (Option-cases (outcome_update (outcomes item))) [
      | inl f ↦ inl (rw (refresh_item, e, f) refl, rw (after, e, f) refl)
      | inr (u, f) ↦
          (let (m, ne) = outcome_update-move (outcomes item) u f in
            inr (u, m, ne, awaiting item e, rw (after, e, f) refl, rw (refresh_item, e, f) refl))
    ]
  ]

  pub refresh_item-Follows :
      (batch : Batch) (item : Item) (s : State)
      → InBatch batch item
      → Follows t batch.id batch.tenant_id s (refresh_item t outcomes item s).0
  refresh_item-Follows batch item s within = elim (refresh_item-cases item s) [
    | inl (e, _) ↦
        subst (λ r. Follows t batch.id batch.tenant_id s r.0) (sym e)
          (Follows-refl t batch.id batch.tenant_id s)
    | inr (u, m, ne, at, f, e) ↦
        subst (λ r. Follows t batch.id batch.tenant_id s r.0) (sym e)
          (move-Follows t batch s item running u m within)
  ]

  pub refresh_item_ne :
      (item : Item) (s : State) (k : Str × Str)
      → item_key item ≢ k
      → find (refresh_item t outcomes item s).0 k ≡ find s k
  unfolding assign
  refresh_item_ne item s k other = elim (refresh_item-cases item s) [
    | inl (e, _) ↦ ap (λ r. find r.0 k) e
    | inr (u, m, ne, at, f, e) ↦
        ap (λ r. find r.0 k) e ∙ update_item_ne t s item running (assign u) (λ row. refl) k other
  ]

  pub refresh_each-Follows :
      (batch : Batch) (items : List Item) (s : State)
      → All (InBatch batch) items
      → Follows t batch.id batch.tenant_id s (refresh_each t outcomes items s).0
  unfolding refresh_each
  refresh_each-Follows batch [] s within = Follows-refl t batch.id batch.tenant_id s
  refresh_each-Follows batch (x ∷ items) s (here, within) =
      let next = (refresh_item t outcomes x s).0 in
      Follows-trans t batch.id batch.tenant_id s next (refresh_each t outcomes items next).0
        (refresh_item-Follows batch x s here) (refresh_each-Follows batch items next within)

  -- The copies in memory are these.
  refresh_item-after : (x : Item) (s : State) → (refresh_item t outcomes x s).1 ≡ after x
  refresh_item-after x s = elim (refresh_item-cases x s) [
    | inl (e, f) ↦ ap (λ r. r.1) e ∙ sym f
    | inr (u, m, ne, at, f, e) ↦ ap (λ r. r.1) e ∙ sym f
  ]

  pub refresh_each-after :
      (items : List Item) (s : State) → (refresh_each t outcomes items s).1 ≡ map after items
  unfolding refresh_each
  refresh_each-after [] s = refl
  refresh_each-after (x ∷ items) s =
      ap (λ y. y ∷ (refresh_each t outcomes items (refresh_item t outcomes x s).0).1)
        (refresh_item-after x s)
      ∙ ap (λ ys. after x ∷ ys) (refresh_each-after items (refresh_item t outcomes x s).0)
