-- ===== src/Common/Table/Bulk.antt =====
-- Statements that change more than one row of a table.
use mathlib.Core.Path.{◌≡◌, refl, ap, ◌∙◌, sym, subst}
use mathlib.Core.Logic.{◌≢◌, ◌⊎◌, inl, inr}
use mathlib.Core.Bool.{Bool, true}
use mathlib.Core.List.{List, [], ◌∷◌, Memᴰ}
use mathlib.Core.List.Memᴰ
use mathlib.Core.Option.{Option, some}
use grlx.Common.Table.{Table, find-save_self, find-save_ne}

module _ {K R : Type 0} {dec : Discrete K} {key : R → K} (t : Table dec key) where
  open t use {State, find, save, select, mem-select}

  unfoldable save_each : (R → R) → List R → State → State
  save_each change [] s = s
  save_each change (r ∷ rows) s = save_each change rows (save s (change r))

  -- `Where(condition).Updates(…)`: assigns columns of the rows that meet the condition.
  unfoldable pub update_where : State → (R → Bool) → (R → R) → State
  unfolding save_each
  update_where s p change = save_each change (select s p) s

  module _ (change : R → R) (keeps : (r : R) → key (change r) ≡ key r) where
    -- A row that none of the saved ones has the key of is not touched.
    save_each_ne :
        (rows : List R) (s : State) (k : K)
        → ((r : R) → Memᴰ r rows → key r ≢ k)
        → find (save_each change rows s) k ≡ find s k
    unfolding save_each
    save_each_ne [] s k apart = refl
    save_each_ne (r ∷ rows) s k apart =
        save_each_ne rows (save s (change r)) k (λ x m. apart x (Memᴰ.tail m))
        ∙ find-save_ne t s (change r) k (λ e. apart r (Memᴰ.head refl) (sym (keeps r) ∙ e))

    save_each_cases :
        (rows : List R) (s : State) (k : K)
        → (find (save_each change rows s) k ≡ find s k)
          ⊎ ((r : R) × Memᴰ r rows
              × (key r ≡ k)
              × (find (save_each change rows s) k ≡ some (change r)))
    unfolding save_each
    save_each_cases [] s k = inl refl
    save_each_cases (r ∷ rows) s k = elim (save_each_cases rows (save s (change r)) k) [
      | inr (x, m, e, f) ↦ inr (x, Memᴰ.tail m, e, f)
      | inl same ↦ elim (dec (key r) k) [
        | yes e ↦ inr (
          r,
          Memᴰ.head refl,
          e,
          same
              ∙ ap (find (save s (change r))) (sym e ∙ sym (keeps r))
              ∙ find-save_self t s (change r),
        )
        | no ne ↦ inl (same ∙ find-save_ne t s (change r) k (λ e. ne (sym (keeps r) ∙ e)))
      ]
    ]

    -- What a statement does to the row that is found under a key.
    pub find-update_where :
        (s : State) (p : R → Bool) (k : K) (r : R)
        → find s k ≡ some r
        → ((p r ≡ true) × (find (update_where s p change) k ≡ some (change r)))
          ⊎ (find (update_where s p change) k ≡ some r)
    unfolding update_where
    find-update_where s p k r there = elim (save_each_cases (select s p) s k) [
      | inl same ↦ inr (same ∙ there)
      | inr (x, m, e, changed) ↦
          (let (found, meets) = (mem-select s p x).0 m in
            let same : some x ≡ some r = sym found ∙ ap (find s) e ∙ there in
            let xr : x ≡ r = cc in
            inl (subst (λ x. p x ≡ true) xr meets, changed ∙ ap (λ x. some (change x)) xr))
    ]

    save_each_hit :
        (rows : List R) (s : State) (k : K) (r : R)
        → key r ≡ k
        → ((x : R) → Memᴰ x rows → key x ≡ k → x ≡ r)
        → (find s k ≡ some (change r)) ⊎ Memᴰ r rows
        → find (save_each change rows s) k ≡ some (change r)
    unfolding save_each
    save_each_hit [] s k r at same (inl e) = e
    save_each_hit [] s k r at same (inr m) = absurd (Memᴰ.not-nil m)
    save_each_hit (x ∷ rows) s k r at same there =
        save_each_hit rows (save s (change x)) k r at (λ y m. same y (Memᴰ.tail m))
          (elim (dec (key x) k) [
            | yes e ↦
                (let xr : x ≡ r = same x (Memᴰ.head refl) e in
                  inl (
                    ap (find (save s (change x))) (sym e ∙ sym (keeps x))
                    ∙ find-save_self t s (change x)
                    ∙ ap (λ x. some (change x)) xr))
            | no ne ↦ elim there [
              | inl e ↦ inl (find-save_ne t s (change x) k (λ e. ne (sym (keeps x) ∙ e)) ∙ e)
              | inr m ↦ elim (Memᴰ.cases_cons m) [
                | inl e ↦ absurd (ne (ap key (sym e) ∙ at))
                | inr m ↦ inr m
              ]
            ]
          ])

    -- A row that meets the condition is changed.
    pub find-update_where_meets :
        (s : State) (p : R → Bool) (k : K) (r : R)
        → find s k ≡ some r
        → p r ≡ true
        → find (update_where s p change) k ≡ some (change r)
    unfolding update_where
    find-update_where_meets s p k r there meets =
        let at : key r ≡ k = t.find-key s k there in
        save_each_hit (select s p) s k r at
          (λ x m e.
            let found : find s k ≡ some x = ap (find s) (sym e) ∙ ((mem-select s p x).0 m).0 in
            some_inj (sym found ∙ there))
          (inr ((mem-select s p r).1 (ap (find s) at ∙ there, meets)))
      where
        some_inj : {x y : R} → ◌≡◌ {A = Option R} (some x) (some y) → x ≡ y
        some_inj e = cc
