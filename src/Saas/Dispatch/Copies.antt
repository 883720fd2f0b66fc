-- ===== src/Saas/Dispatch/Copies.antt =====
-- After `refreshItems` of internal/saasapi/sprout_actions.go, the rows are as the copies of them in memory.
use mathlib.Core.Path.{◌≡◌, refl, ap, ◌∙◌, sym, subst}
use mathlib.Core.Logic.{◌⊎◌, inl, inr}
use mathlib.Core.Option.{Option, some}
use mathlib.Core.List.{List, [], ◌∷◌, Memᴰ}
use mathlib.Core.List.Memᴰ
use grlx.Common.Table.{Table, find-save_self}
use grlx.Saas.Items.{Item, running, item_key, dec_key, assign}
use grlx.Saas.Items.Moves.{update_item-stays, update_item-changes}
use grlx.Saas.Dispatch.{JobOutcome, refresh_item, refresh_each}
use grlx.Saas.Dispatch.Outcomes.{after, refresh_item-cases, refresh_item_ne}

module _ (t : Table dec_key item_key) (outcomes : Item → JobOutcome) where
  open t use {State, find}

  -- A row is as it was read, or as the loop leaves it.
  abbrev Ready : State → Item → Type 0
  Ready s item =
      (find s (item_key item) ≡ some item) ⊎ (find s (item_key item) ≡ some (after t outcomes item))

  abbrev pub Done : State → Item → Type 0
  Done s item = find s (item_key item) ≡ some (after t outcomes item)

  refresh_item-Done :
      (item : Item) (s : State) → Ready s item → Done (refresh_item t outcomes item s).0 item
  unfolding assign
  refresh_item-Done item s ready = elim (refresh_item-cases t outcomes item s) [
    | inl (e, same) ↦
        ap (λ r. find r.0 (item_key item)) e
        ∙ elim ready [ inl there ↦ there ∙ ap some (sym same) | inr there ↦ there ]
    | inr (u, m, ne, at, f, e) ↦ ap (λ r. find r.0 (item_key item)) e ∙ elim ready [
      | inl there ↦
          ap (λ s. find s (item_key item))
            (update_item-changes t s item running (assign u) item there refl at)
          ∙ find-save_self t s (assign u item)
          ∙ ap some (sym f)
      | inr there ↦
          update_item-stays t s item running (assign u) (λ row. refl) (item_key item)
            (after t outcomes item) there (λ p. ne (ap Item.status (sym f) ∙ p))
    ]
  ]

  module _ (s0 : State) where
    abbrev pub Copied : Item → Type 0
    Copied item = find s0 (item_key item) ≡ some item

    Copied-once : (x y : Item) → Copied x → Copied y → item_key x ≡ item_key y → x ≡ y
    Copied-once x y cx cy e = some_inj (sym cx ∙ ap (find s0) e ∙ cy)
      where
        some_inj : ◌≡◌ {A = Option Item} (some x) (some y) → x ≡ y
        some_inj e = cc

    refresh_item-keeps :
        (P : Option Item → Item → Type 0) (x y : Item) (s : State)
        → Copied x
        → Copied y
        → Ready s x
        → ((z : Item) → P (some (after t outcomes z)) z)
        → P (find s (item_key y)) y
        → P (find (refresh_item t outcomes x s).0 (item_key y)) y
    refresh_item-keeps P x y s cx cy ready done there = elim (dec_key (item_key x) (item_key y)) [
      | yes e ↦
          (let same : x ≡ y = Copied-once x y cx cy e in
            let found : find (refresh_item t outcomes x s).0 (item_key y)
                ≡ some (after t outcomes y) =
              subst
                (λ z. find (refresh_item t outcomes x s).0 (item_key z) ≡ some (after t outcomes z))
                same (refresh_item-Done x s ready) in
            subst (λ o. P o y) (sym found) (done y))
      | no ne ↦ subst (λ o. P o y) (sym (refresh_item_ne t outcomes x s (item_key y) ne)) there
    ]

    abbrev AreReady : State → List Item → Type 0
    AreReady s items = (x : Item) → Memᴰ x items → Copied x × Ready s x

    ready_rest :
        (x : Item) (items : List Item) (s : State)
        → AreReady s (x ∷ items)
        → AreReady (refresh_item t outcomes x s).0 items
    ready_rest x items s ready y m =
        let (cx, rx) = ready x (Memᴰ.head refl) in
        let (cy, ry) = ready y (Memᴰ.tail m) in
        (
          cy,
          refresh_item-keeps (λ o z. (o ≡ some z) ⊎ (o ≡ some (after t outcomes z))) x y s cx cy rx
              (λ z. inr refl) ry,
        )

    refresh_each-keeps :
        (items : List Item) (s : State) (y : Item)
        → AreReady s items
        → Copied y
        → Done s y
        → Done (refresh_each t outcomes items s).0 y
    unfolding refresh_each
    refresh_each-keeps [] s y ready cy done = done
    refresh_each-keeps (x ∷ items) s y ready cy done =
        let (cx, rx) = ready x (Memᴰ.head refl) in
        refresh_each-keeps items (refresh_item t outcomes x s).0 y (ready_rest x items s ready) cy (
          refresh_item-keeps (λ o z. o ≡ some (after t outcomes z)) x y s cx cy rx (λ z. refl) done)

    -- The rows of items that were read from the table are as their copies after the loop.
    pub refresh_each-Done :
        (items : List Item) (s : State)
        → AreReady s items
        → (y : Item) → Memᴰ y items
        → Done (refresh_each t outcomes items s).0 y
    unfolding refresh_each
    refresh_each-Done [] s ready y m = absurd (Memᴰ.not-nil m)
    refresh_each-Done (x ∷ items) s ready y m =
        let (cx, rx) = ready x (Memᴰ.head refl) in
        let next = (refresh_item t outcomes x s).0 in
        elim (Memᴰ.cases_cons m) [
          | inl e ↦
              refresh_each-keeps items next y (ready_rest x items s ready) (subst Copied (sym e) cx)
                (subst (Done next) (sym e) (refresh_item-Done x s rx))
          | inr n ↦ refresh_each-Done items next (ready_rest x items s ready) y n
        ]
