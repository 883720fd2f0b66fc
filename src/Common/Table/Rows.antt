-- ===== src/Common/Table/Rows.antt =====
-- A table in memory: the rows as a list with one row to a key.
use mathlib.Core.Path.{◌≡◌, refl, ap, ◌∙◌, sym, subst}
use mathlib.Core.Logic.{◌↔◌, ◌≢◌, inl, inr, ite, if_pos, if_neg}
use mathlib.Core.Bool.{Bool, true}
use mathlib.Core.List.{List, [], ◌∷◌, Memᴰ}
use mathlib.Core.List.Memᴰ
use mathlib.Core.Option.{Option, none, some}
use native.Mathlib.Omega.{arith}
use grlx.Common.Text.{test}
use grlx.Common.Sets.{if◌then◌else◌, keep, mem-keep, Memᴰ-cons}
use grlx.Common.Table.{Table}

module _ {K R : Type 0} (dec : Discrete K) (key : R → K) where
  unfoldable pub find_in : List R → K → Option R
  find_in [] k = none
  find_in (x ∷ xs) k = let rest = find_in xs k in if test (dec (key x) k) then some x else rest

  unfoldable pub remove : List R → K → List R
  remove [] k = []
  remove (x ∷ xs) k = let rest = remove xs k in if test (dec (key x) k) then rest else x ∷ rest

  unfoldable pub AreUnique : List R → Type 0
  unfolding find_in
  AreUnique [] = Unit
  AreUnique (x ∷ xs) = (find_in xs (key x) ≡ none) × AreUnique xs

  pub find_in-remove_self : (xs : List R) (k : K) → find_in (remove xs k) k ≡ none
  unfolding find_in remove
  find_in-remove_self [] k = refl
  find_in-remove_self (x ∷ xs) k = ground (arith, find_in-remove_self xs k)

  pub find_in-remove_ne : (xs : List R) (j k : K) → j ≢ k → find_in (remove xs j) k ≡ find_in xs k
  unfolding find_in remove
  find_in-remove_ne [] j k ne = refl
  find_in-remove_ne (x ∷ xs) j k ne = elim (dec (key x) j) [
    | yes e ↦ elim (dec (key x) k) [
      | yes f ↦ absurd (ne (sym e ∙ f))
      | no f ↦ ground (arith, find_in-remove_ne xs j k ne)
    ]
    | no e ↦ ground (arith, find_in-remove_ne xs j k ne)
  ]

  remove-same : (x : R) (xs : List R) (k : K) → key x ≡ k → remove (x ∷ xs) k ≡ remove xs k
  unfolding remove
  remove-same x xs k e = ground arith

  remove-other : (x : R) (xs : List R) (k : K) → key x ≢ k → remove (x ∷ xs) k ≡ x ∷ remove xs k
  unfolding remove
  remove-other x xs k ne = ground arith

  pub AreUnique-remove : (xs : List R) (k : K) → AreUnique xs → AreUnique (remove xs k)
  unfolding remove AreUnique
  AreUnique-remove [] k u = tt
  AreUnique-remove (x ∷ xs) k (absent, u) = elim (dec (key x) k) [
    | yes e ↦ subst AreUnique (sym (remove-same x xs k e)) (AreUnique-remove xs k u)
    | no ne ↦
        subst AreUnique (sym (remove-other x xs k ne))
          (find_in-remove_ne xs k (key x) (λ e. ne (sym e)) ∙ absent, AreUnique-remove xs k u)
  ]

  pub find_in-same : (x : R) (xs : List R) (k : K) → key x ≡ k → find_in (x ∷ xs) k ≡ some x
  unfolding find_in
  find_in-same x xs k e = ground arith

  pub find_in-other : (x : R) (xs : List R) (k : K) → key x ≢ k → find_in (x ∷ xs) k ≡ find_in xs k
  unfolding find_in
  find_in-other x xs k ne = ground arith

  some_inj : {a b : R} → some a ≡ some b → a ≡ b
  some_inj e = cc

  pub none-ne-some : (a : R) → none ≡ some a → ⊥
  none-ne-some a e = cc

  pub find_in-key : (xs : List R) (k : K) {r : R} → find_in xs k ≡ some r → key r ≡ k
  unfolding find_in
  find_in-key [] k {r} h = absurd (none-ne-some r h)
  find_in-key (x ∷ xs) k {r} h = elim (dec (key x) k) [
    | yes e ↦ ap key (some_inj (sym h ∙ find_in-same x xs k e)) ∙ e
    | no ne ↦ find_in-key xs k (sym (find_in-other x xs k ne) ∙ h)
  ]

  pub find_in-mem : (xs : List R) (r : R) → AreUnique xs → Memᴰ r xs ↔ (find_in xs (key r) ≡ some r)
  unfolding find_in AreUnique
  find_in-mem [] r u = (λ m. absurd (Memᴰ.not-nil m), λ e. absurd (none-ne-some r e))
  find_in-mem (x ∷ xs) r (absent, u) = elim (dec (key x) (key r)) [
    | yes e ↦ (
      λ m. elim ((Memᴰ-cons r x xs).0 m) [
        | inl q ↦ find_in-same x xs (key r) e ∙ ap some (sym q)
        | inr n ↦
            absurd (none-ne-some r (sym absent ∙ ap (find_in xs) e ∙ (find_in-mem xs r u).0 n))
      ],
      λ h. (Memᴰ-cons r x xs).1 (inl (some_inj (sym h ∙ find_in-same x xs (key r) e))),
    )
    | no ne ↦ (
      λ m. elim ((Memᴰ-cons r x xs).0 m) [
        | inl q ↦ absurd (ne (sym (ap key q)))
        | inr n ↦ find_in-other x xs (key r) ne ∙ (find_in-mem xs r u).0 n
      ],
      λ h.
          (Memᴰ-cons r x xs).1
            (inr ((find_in-mem xs r u).1 (sym (find_in-other x xs (key r) ne) ∙ h))),
    )
  ]

  -- The rows of a table, with the proof that no two have one key.
  abbrev pub Rows : Type 0
  Rows = (xs : List R) × AreUnique xs

  -- `Table` for rows in memory.
  unfoldable pub rows_table : Table dec key
  unfolding find_in remove AreUnique keep
  rows_table = record {
    State = Rows;
    find = λ s. find_in s.0;
    save = λ s r. (
      r ∷ remove s.0 (key r),
      (find_in-remove_self s.0 (key r), AreUnique-remove s.0 (key r) s.1),
    );
    delete = λ s k. (remove s.0 k, AreUnique-remove s.0 k s.1);
    select = λ s p. keep p s.0;
    find-save = λ s r k. saved s.0 r k;
    find-delete = λ s j k. deleted s.0 j k;
    find-key = λ s k e. find_in-key s.0 k e;
    mem-select = λ s p r. selected s.0 s.1 p r;
  }
    where
      saved :
          (xs : List R) (r : R) (k : K)
          → find_in (r ∷ remove xs (key r)) k ≡ ite (dec (key r) k) (some r) (find_in xs k)
      saved xs r k = elim (dec (key r) k) [
        | yes e ↦
            find_in-same r (remove xs (key r)) k e
            ∙ sym (if_pos (dec (key r) k) e (some r) (find_in xs k))
        | no ne ↦
            find_in-other r (remove xs (key r)) k ne
            ∙ find_in-remove_ne xs (key r) k ne
            ∙ sym (if_neg (dec (key r) k) ne (some r) (find_in xs k))
      ]

      deleted :
          (xs : List R) (j k : K) → find_in (remove xs j) k ≡ ite (dec j k) none (find_in xs k)
      deleted xs j k = elim (dec j k) [
        | yes e ↦
            ap (find_in (remove xs j)) (sym e)
            ∙ find_in-remove_self xs j
            ∙ sym (if_pos (dec j k) e none (find_in xs k))
        | no ne ↦ find_in-remove_ne xs j k ne ∙ sym (if_neg (dec j k) ne none (find_in xs k))
      ]

      selected :
          (xs : List R)
          → AreUnique xs
          → (p : R → Bool) (r : R)
          → Memᴰ r (keep p xs) ↔ ((find_in xs (key r) ≡ some r) × (p r ≡ true))
      selected xs u p r =
          let (to, from) = mem-keep p r xs in
          let (to', from') = find_in-mem xs r u in
          (λ m. let (a, b) = to m in (to' a, b), λ (a, b). from (from' a, b))

  unfoldable pub no_rows : Table.State rows_table
  unfolding rows_table AreUnique
  no_rows = ([], tt)
