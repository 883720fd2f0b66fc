-- ===== src/Pki/Keys/Rows.antt =====
-- The statements of internal/pki/store.go on `pki_nkeys`, in terms of what is found afterwards.
use mathlib.Core.Path.{◌≡◌, sym, ap, ◌∙◌}
use mathlib.Core.Logic.{◌≢◌, inl, inr}
use mathlib.Core.Bool.{true}
use mathlib.Core.Option.{none, some}
use native.Mathlib.Omega.{arith}
use grlx.Common.{Str, ok, err, Option-cases}
use grlx.Common.Table.{
  Table, upsert-save, update_found, update_missing, find-save_self, find-save_ne,
}
use grlx.Pki.SproutId.{is_valid_sprout_id}
use grlx.Pki.Keys.{
  Error, sprout_id_not_found, KeyState, NKeyRow, nkey_key, dec_key, find_nkey_row, upsert_nkey_row,
  set_state,
}

module _ (t : Table dec_key nkey_key) where
  open t use {State, find, save, delete, find-key}

  pub upsert_nkey_row-save :
      (rows : State) (row : NKeyRow) → upsert_nkey_row t rows row ≡ save rows row
  unfolding upsert_nkey_row
  upsert_nkey_row-save rows row = upsert-save t rows row _ λ old found i. record row {
    tenant_id = (find-key rows (nkey_key row) found i).0;
    sprout_id = (find-key rows (nkey_key row) found i).1;
  }

  pub set_state-save :
      (rows : State) (tenant_id id : Str) (state : KeyState) {row : NKeyRow}
      → find rows (tenant_id, id) ≡ some row
      → set_state t rows tenant_id id state ≡ save rows (record row { state = state })
  unfolding set_state
  set_state-save rows tenant_id id state found = update_found t rows (tenant_id, id) _ found

  pub find-set_state_self :
      (rows : State) (tenant_id id : Str) (state : KeyState) {row : NKeyRow}
      → find rows (tenant_id, id) ≡ some row
      → find (set_state t rows tenant_id id state) (tenant_id, id)
        ≡ some (record row { state = state })
  find-set_state_self rows tenant_id id state {row} found =
      ap (λ s. find s (tenant_id, id)) (set_state-save rows tenant_id id state found)
      ∙ ap (find (save rows (record row { state = state })))
          (sym (find-key rows (tenant_id, id) found))
      ∙ find-save_self t rows (record row { state = state })

  pub find-set_state_ne :
      (rows : State) (tenant_id id : Str) (state : KeyState) (k : Str × Str)
      → (tenant_id, id) ≢ k
      → find (set_state t rows tenant_id id state) k ≡ find rows k
  unfolding set_state
  find-set_state_ne rows tenant_id id state k ne = elim (Option-cases (find rows (tenant_id, id))) [
    | inl missing ↦ ap (λ s. find s k) (update_missing t rows (tenant_id, id) _ missing)
    | inr (row, found) ↦
        ap (λ s. find s k) (set_state-save rows tenant_id id state found)
        ∙ find-save_ne t rows (record row { state = state }) k
            (λ e. ne (sym (find-key rows (tenant_id, id) found) ∙ e))
  ]

  -- What `findNKeyRowInTenant` says of the table.
  pub find_nkey_row-eq-ok :
      (rows : State) (tenant_id id : Str) {row : NKeyRow}
      → find_nkey_row t rows tenant_id id ≡ ok row
      → (is_valid_sprout_id id ≡ true) × (find rows (tenant_id, id) ≡ some row)
  unfolding find_nkey_row
  find_nkey_row-eq-ok rows tenant_id id h = ground arith

  pub find_nkey_row-eq-err :
      (rows : State) (tenant_id id : Str) {e : Error}
      → is_valid_sprout_id id ≡ true
      → find_nkey_row t rows tenant_id id ≡ err e
      → (e ≡ sprout_id_not_found) × (find rows (tenant_id, id) ≡ none)
  unfolding find_nkey_row
  find_nkey_row-eq-err rows tenant_id id v h = ground arith
