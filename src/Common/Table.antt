-- ===== src/Common/Table.antt =====
-- A table of the shared database, as the packages use it through GORM: rows with a primary key, one
-- row to a key. The database is not part of the program, so it is an interface with the documented
-- behaviour of its statements as laws. Keys are compared exactly: this is a table whose collation is
-- binary, or whose keys are all in lower case.
pub mod Rows
pub mod Bulk
use mathlib.Core.Path.{◌≡◌, refl, ap, ◌∙◌, sym}
use mathlib.Core.Logic.{◌↔◌, ◌≢◌, ◌⊎◌, inl, inr, ite, if_pos, if_neg}
use mathlib.Core.Bool.{Bool, true}
use mathlib.Core.List.{List, Memᴰ}
use mathlib.Core.Option.{Option, none, some}
use native.Mathlib.Omega.{arith}

pub record Table {K R : Type 0} (dec : Discrete K) (key : R → K) : Type 1 where
  pub State : Type 0
  -- `First` with the whole primary key in the condition.
  pub find : State → K → Option R
  -- One statement that leaves the given row under its key.
  pub save : State → R → State
  -- `Delete` with the whole primary key in the condition.
  pub delete : State → K → State
  -- `Find` with a condition on the columns.
  pub select : State → (R → Bool) → List R
  pub find-save :
      (s : State) (r : R) (k : K) → find (save s r) k ≡ ite (dec (key r) k) (some r) (find s k)
  pub find-delete : (s : State) (j k : K) → find (delete s j) k ≡ ite (dec j k) none (find s k)
  pub find-key : (s : State) (k : K) {r : R} → find s k ≡ some r → key r ≡ k
  pub mem-select :
      (s : State) (p : R → Bool) (r : R)
      → Memᴰ r (select s p) ↔ ((find s (key r) ≡ some r) × (p r ≡ true))

module _ {K R : Type 0} {dec : Discrete K} {key : R → K} (t : Table dec key) where
  open t use {State, find, save, delete, find-save, find-delete}

  pub find-save_self : (s : State) (r : R) → find (save s r) (key r) ≡ some r
  find-save_self s r =
      find-save s r (key r) ∙ if_pos (dec (key r) (key r)) refl (some r) (find s (key r))

  pub find-save_ne : (s : State) (r : R) (k : K) → key r ≢ k → find (save s r) k ≡ find s k
  find-save_ne s r k ne = find-save s r k ∙ if_neg (dec (key r) k) ne (some r) (find s k)

  pub find-delete_self : (s : State) (k : K) → find (delete s k) k ≡ none
  find-delete_self s k = find-delete s k k ∙ if_pos (dec k k) refl none (find s k)

  pub find-delete_ne : (s : State) (j k : K) → j ≢ k → find (delete s j) k ≡ find s k
  find-delete_ne s j k ne = find-delete s j k ∙ if_neg (dec j k) ne none (find s k)

  -- A row that is found after a save is the saved one, or was there.
  pub find-save_inv :
      (s : State) (r : R) (k : K) {x : R}
      → find (save s r) k ≡ some x
      → (r ≡ x) ⊎ (find s k ≡ some x)
  find-save_inv s r k {x} h = elim (dec (key r) k) [
    | yes e ↦
        inl
          (some_eq (sym (if_pos (dec (key r) k) e (some r) (find s k)) ∙ sym (find-save s r k) ∙ h))
    | no ne ↦ inr (sym (find-save_ne s r k ne) ∙ h)
  ]
    where
      some_eq : {a b : R} → some a ≡ some b → a ≡ b
      some_eq e = cc

  pub find-delete_inv :
      (s : State) (j k : K) {x : R} → find (delete s j) k ≡ some x → (find s k ≡ some x) × (j ≢ k)
  find-delete_inv s j k {x} h = elim (dec j k) [
    | yes e ↦
        absurd (absent (sym (if_pos (dec j k) e none (find s k)) ∙ sym (find-delete s j k) ∙ h))
    | no ne ↦ (sym (find-delete_ne s j k ne) ∙ h, ne)
  ]
    where
      absent : none ≡ some x → ⊥
      absent e = cc

  -- `OnConflict{DoUpdates: …}.Create(&row)`: inserts the row, or assigns columns of the row that
  -- has its key.
  unfoldable pub upsert : State → R → (R → R) → State
  upsert s r assign = save s (elim (find s (key r)) [ none ↦ r | some old ↦ assign old ])

  -- `Where(key).Update(…)`: assigns columns of the row with the key, if there is one.
  unfoldable pub update : State → K → (R → R) → State
  update s k assign = elim (find s k) [ none ↦ s | some old ↦ save s (assign old) ]

  -- Where the assigned row is the given row, an upsert is a save.
  pub upsert-save :
      (s : State) (r : R) (assign : R → R)
      → ((old : R) → find s (key r) ≡ some old → assign old ≡ r)
      → upsert s r assign ≡ save s r
  unfolding upsert
  upsert-save s r assign same = ap (save s) (go (find s (key r)) refl)
    where
      go : (o : Option R) → find s (key r) ≡ o → (elim o [ none ↦ r | some old ↦ assign old ]) ≡ r
      go none e = refl
      go (some old) e = same old e

  -- An update without a row with the key changes nothing.
  pub update_missing :
      (s : State) (k : K) (assign : R → R) → find s k ≡ none → update s k assign ≡ s
  unfolding update
  update_missing s k assign e =
      ap (λ (o : Option R). elim o [ none ↦ s | some old ↦ save s (assign old) ]) e

  pub update_found :
      (s : State) (k : K) (assign : R → R) {old : R}
      → find s k ≡ some old
      → update s k assign ≡ save s (assign old)
  unfolding update
  update_found s k assign e =
      ap (λ (o : Option R). elim o [ none ↦ s | some old ↦ save s (assign old) ]) e

  -- What is found after them, where the assignment keeps the key.
  pub find-upsert_missing :
      (s : State) (r : R) (assign : R → R)
      → find s (key r) ≡ none
      → find (upsert s r assign) (key r) ≡ some r
  unfolding upsert
  find-upsert_missing s r assign e =
      ap (λ (o : Option R). find (save s (elim o [ none ↦ r | some old ↦ assign old ])) (key r)) e
      ∙ find-save_self s r

  module _ (assign : R → R) (keeps : (x : R) → key (assign x) ≡ key x) where
    find-save_assigned :
        (s : State) (k : K) {old : R}
        → find s k ≡ some old
        → find (save s (assign old)) k ≡ some (assign old)
    find-save_assigned s k {old} e =
        ap (find (save s (assign old))) (sym (keeps old ∙ t.find-key s k e))
        ∙ find-save_self s (assign old)

    find-save_assigned_ne :
        (s : State) (j k : K) {old : R}
        → find s j ≡ some old
        → j ≢ k
        → find (save s (assign old)) k ≡ find s k
    find-save_assigned_ne s j k {old} e ne =
        find-save_ne s (assign old) k (λ p. ne (sym (keeps old ∙ t.find-key s j e) ∙ p))

    pub find-upsert_found :
        (s : State) (r : R) {old : R}
        → find s (key r) ≡ some old
        → find (upsert s r assign) (key r) ≡ some (assign old)
    unfolding upsert
    find-upsert_found s r e =
        ap (λ (o : Option R). find (save s (elim o [ none ↦ r | some old ↦ assign old ])) (key r)) e
        ∙ find-save_assigned s (key r) e

    pub find-upsert_ne :
        (s : State) (r : R) (k : K) → key r ≢ k → find (upsert s r assign) k ≡ find s k
    unfolding upsert
    find-upsert_ne s r k ne = go (find s (key r)) refl
      where
        go :
            (o : Option R)
            → find s (key r) ≡ o
            → find (save s (elim o [ none ↦ r | some old ↦ assign old ])) k ≡ find s k
        go none e = find-save_ne s r k ne
        go (some old) e = find-save_assigned_ne s (key r) k e ne

    pub find-update_found :
        (s : State) (k : K) {old : R}
        → find s k ≡ some old
        → find (update s k assign) k ≡ some (assign old)
    find-update_found s k e =
        ap (λ s. find s k) (update_found s k assign e) ∙ find-save_assigned s k e

    pub find-update_ne : (s : State) (j k : K) → j ≢ k → find (update s j assign) k ≡ find s k
    unfolding update
    find-update_ne s j k ne = go (find s j) refl
      where
        go :
            (o : Option R)
            → find s j ≡ o
            → find (elim o [ none ↦ s | some old ↦ save s (assign old) ]) k ≡ find s k
        go none e = refl
        go (some old) e = find-save_assigned_ne s j k e ne
