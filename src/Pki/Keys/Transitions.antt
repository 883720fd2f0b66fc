-- ===== src/Pki/Keys/Transitions.antt =====
-- `DenyNKey`, `UnacceptNKey`, `RejectNKey` and `DeleteNKey` of internal/pki/pki.go.
use mathlib.Core.Path.{◌≡◌, refl, sym, ap, ◌∙◌, subst}
use mathlib.Core.Logic.{◌≢◌, ◌⊎◌, inl, inr, ◌↔◌}
use mathlib.Core.Bool.{true}
use mathlib.Core.Option.{none, some}
use mathlib.Core.List.{[], ◌∷◌}
use native.Mathlib.Omega.{arith}
use grlx.Common.{Str, dec_str, ok, err, Option-cases, Bool-cases, ok-ne-err}
use grlx.Common.Table.{Table, find-save_self, find-save_ne}
use grlx.Pki.SproutId.{is_valid_sprout_id}
use grlx.Pki.Keys.{
  Error, sprout_id_invalid, sprout_id_not_found, already_denied, already_rejected,
  already_unaccepted, KeyState, unaccepted, denied, rejected, dec_state, NKeyRow, nkey_key, dec_key,
  reload_for, World, Outcome, upsert_nkey_row, set_state, deny_row, submit_row, deny_nkey,
  unaccept_nkey, reject_nkey,
}
use grlx.Pki.Keys.Rows.{upsert_nkey_row-save, find-set_state_self, find-set_state_ne}

module _ (t : Table dec_key nkey_key) where
  open t use {State, find, save}

  -- The row of a key after a call: the old row in the new state, or a new row with the submitted
  -- key.
  pub data Moved (rows after : State) (tenant_id id nkey : Str) (state : KeyState) : Type 0 where
    moved :
        (old : NKeyRow)
        → find rows (tenant_id, id) ≡ some old
        → old.state ≢ state
        → find after (tenant_id, id) ≡ some (record old { state = state })
        → Moved rows after tenant_id id nkey state
    submitted :
        find rows (tenant_id, id) ≡ none
        → nkey ≢ []
        → find after (tenant_id, id)
          ≡ some (record { tenant_id = tenant_id; sprout_id = id; nkey = nkey; state = state })
        → Moved rows after tenant_id id nkey state

  module _ (current_tenant : Str) (w : World t) (tenant_id id nkey : Str) (state : KeyState)
      (already : Error) where
    abbrev new_row : NKeyRow
    new_row = record { tenant_id = tenant_id; sprout_id = id; nkey = nkey; state = state }

    -- The ways through the body of `UnacceptNKey` and `RejectNKey`.
    data Way (o : Outcome t) : Type 0 where
      refused : (e : Error) → o ≡ (err e, w) → Way o
      stored :
          find w.rows (tenant_id, id) ≡ none
          → nkey ≢ []
          → o ≡ (ok tt, record w { rows = upsert_nkey_row t w.rows new_row })
          → Way o
      changed :
          (old : NKeyRow)
          → find w.rows (tenant_id, id) ≡ some old
          → old.state ≢ state
          → o ≡ (ok tt, record w { rows = set_state t w.rows tenant_id id state })
          → Way o

    submit_row-Way : Way (submit_row t current_tenant w tenant_id id nkey state already)
    unfolding submit_row
    submit_row-Way = elim (Bool-cases (is_valid_sprout_id id)) [
      | inr bad ↦ refused sprout_id_invalid (rw bad)
      | inl valid ↦ elim (Option-cases (find w.rows (tenant_id, id))) [
        | inl missing ↦ elim (dec_str nkey []) [
          | yes empty ↦ refused sprout_id_not_found (ground arith)
          | no given ↦ stored missing given (ground arith)
        ]
        | inr (old, found) ↦ elim (dec_state old.state state) [
          | yes same ↦ refused already (ground arith)
          | no other ↦ changed old found other (ground arith)
        ]
      ]
    ]

    Way-Moved :
        {o : Outcome t} → Way o → o.0 ≡ ok tt → Moved w.rows o.1.rows tenant_id id nkey state
    Way-Moved (refused e p) h = absurd (ok-ne-err tt e (sym h ∙ ap (λ (x : Outcome t). x.0) p))
    Way-Moved (stored missing given p) h = submitted missing given (
        ap (λ (x : Outcome t). find x.1.rows (tenant_id, id)) p
        ∙ ap (λ s. find s (tenant_id, id)) (upsert_nkey_row-save t w.rows new_row)
        ∙ find-save_self t w.rows new_row)
    Way-Moved (changed old found other p) h = moved old found other (
        ap (λ (x : Outcome t). find x.1.rows (tenant_id, id)) p
        ∙ find-set_state_self t w.rows tenant_id id state found)

    Way-unchanged : {o : Outcome t} → Way o → (e : Error) → o.0 ≡ err e → o.1.rows ≡ w.rows
    Way-unchanged (refused e' p) e h = ap (λ (x : Outcome t). x.1.rows) p
    Way-unchanged (stored missing given p) e h =
        absurd (ok-ne-err tt e (sym (ap (λ (x : Outcome t). x.0) p) ∙ h))
    Way-unchanged (changed old found other p) e h =
        absurd (ok-ne-err tt e (sym (ap (λ (x : Outcome t). x.0) p) ∙ h))

    Way-frame :
        {o : Outcome t}
        → Way o
        → (k : Str × Str) → (tenant_id, id) ≢ k
        → find o.1.rows k ≡ find w.rows k
    Way-frame (refused e p) k ne = ap (λ (x : Outcome t). find x.1.rows k) p
    Way-frame (stored missing given p) k ne =
        ap (λ (x : Outcome t). find x.1.rows k) p
        ∙ ap (λ s. find s k) (upsert_nkey_row-save t w.rows new_row)
        ∙ find-save_ne t w.rows new_row k ne
    Way-frame (changed old found other p) k ne =
        ap (λ (x : Outcome t). find x.1.rows k) p
        ∙ find-set_state_ne t w.rows tenant_id id state k ne

    submit_row-ok_iff :
        ((submit_row t current_tenant w tenant_id id nkey state already).0 ≡ ok tt) ↔ (
          (is_valid_sprout_id id ≡ true)
          × (((old : NKeyRow) × (find w.rows (tenant_id, id) ≡ some old) × (old.state ≢ state))
              ⊎ ((find w.rows (tenant_id, id) ≡ none) × (nkey ≢ []))))
    unfolding submit_row
    submit_row-ok_iff = elim (Bool-cases (is_valid_sprout_id id)) [
      | inr bad ↦ (λ h. absurd (ground arith), λ h. absurd (ground arith))
      | inl valid ↦ elim (Option-cases (find w.rows (tenant_id, id))) [
        | inl missing ↦ (λ h. (valid, inr (missing, ground arith)), λ h. ground arith)
        | inr (old, found) ↦ (λ h. (valid, inl (old, found, ground arith)), λ h. ground arith)
      ]
    ]

-- The calls that move a key to a state.
pub data Move : Type 0 where
  deny : Move
  unaccept reject : Str → Move

abbrev pub target : Move → KeyState
target deny = denied
target (unaccept nkey) = unaccepted
target (reject nkey) = rejected

-- The key that comes with the call; `DenyNKey` takes none.
abbrev pub key_of : Move → Str
key_of deny = []
key_of (unaccept nkey) = nkey
key_of (reject nkey) = nkey

abbrev already_of : Move → Error
already_of deny = already_denied
already_of (unaccept nkey) = already_unaccepted
already_of (reject nkey) = already_rejected

module _ (t : Table dec_key nkey_key) (current_tenant : Str) (w : World t)
    (tenant_id id : Str) where
  open t use {State, find}

  abbrev pub call : Move → Outcome t
  call deny = deny_nkey t current_tenant w tenant_id id
  call (unaccept nkey) = unaccept_nkey t current_tenant w tenant_id id nkey
  call (reject nkey) = reject_nkey t current_tenant w tenant_id id nkey

  deny_row-submit_row :
      deny_row t current_tenant w tenant_id id
      ≡ submit_row t current_tenant w tenant_id id [] denied already_denied
  unfolding deny_row submit_row dec_str
  deny_row-submit_row = ground arith

  abbrev body : Move → Outcome t
  body m = submit_row t current_tenant w tenant_id id (key_of m) (target m) (already_of m)

  call-body :
      (m : Move)
      → ((call m).0 ≡ (body m).0)
        × ((call m).1.rows ≡ (body m).1.rows)
        × ((call m).1.reloads ≡ reload_for current_tenant tenant_id ∷ (body m).1.reloads)
  unfolding deny_nkey unaccept_nkey reject_nkey
  call-body deny =
      let e = deny_row-submit_row in
      (
        ap (λ (x : Outcome t). x.0) e,
        ap (λ (x : Outcome t). x.1.rows) e,
        ap (λ (x : Outcome t). reload_for current_tenant tenant_id ∷ x.1.reloads) e,
      )
  call-body (unaccept nkey) = (refl, refl, refl)
  call-body (reject nkey) = (refl, refl, refl)

  -- What a call leaves in the table, for the outcome that it returns.
  pub CallEffect : Move → Outcome t → Type 0
  CallEffect m (ok _, after) =
      Moved t w.rows after.rows tenant_id id (key_of m) (target m)
      × ((k : Str × Str) → ((tenant_id, id) ≡ k) ⊎ (find after.rows k ≡ find w.rows k))
  CallEffect m (err e, after) = after.rows ≡ w.rows

  CallEffect-of :
      (m : Move) (o : Outcome t)
      → (o.0 ≡ ok tt → Moved t w.rows o.1.rows tenant_id id (key_of m) (target m))
      → ((e : Error) → o.0 ≡ err e → o.1.rows ≡ w.rows)
      → ((k : Str × Str) → (tenant_id, id) ≢ k → find o.1.rows k ≡ find w.rows k)
      → CallEffect m o
  unfolding CallEffect
  CallEffect-of m (ok _, after) moves same frame = (
    moves refl,
    λ k. elim (dec_key (tenant_id, id) k) [ yes e ↦ inl e | no ne ↦ inr (frame k ne) ],
  )
  CallEffect-of m (err e, after) moves same frame = same e refl

  -- A call that succeeds leaves the sprout's row in the state of the call, with the key that it had,
  -- or, for an unknown sprout, with the key that came with the call; rows of other sprouts and of
  -- other tenants stay as they are. A call that fails leaves every row as it is. This is for a database that
  -- takes ids that differ for different keys, also where they differ in case alone.
  pub call_effect : (m : Move) → CallEffect m (call m)
  call_effect m =
      let (r, rows, _) = call-body m in
      let way =
        submit_row-Way t current_tenant w tenant_id id (key_of m) (target m) (already_of m) in
      CallEffect-of m (call m)
        (λ h.
          subst (λ (s : State). Moved t w.rows s tenant_id id (key_of m) (target m)) (sym rows)
            (Way-Moved t current_tenant w tenant_id id (key_of m) (target m) (already_of m) way
              (sym r ∙ h)))
        (λ e h.
          rows
          ∙ Way-unchanged t current_tenant w tenant_id id (key_of m) (target m) (already_of m) way e
              (sym r ∙ h))
        (λ k ne.
          ap (λ (s : State). find s k) rows
          ∙ Way-frame t current_tenant w tenant_id id (key_of m) (target m) (already_of m) way k ne)

  -- A call succeeds exactly when the id is valid and the sprout is known in another state, or is
  -- unknown and a key came with the call.
  pub call_succeeds_iff :
      (m : Move)
      → ((call m).0 ≡ ok tt) ↔ (
          (is_valid_sprout_id id ≡ true)
          × (((old : NKeyRow) × (find w.rows (tenant_id, id) ≡ some old) × (old.state ≢ target m))
              ⊎ ((find w.rows (tenant_id, id) ≡ none) × (key_of m ≢ []))))
  call_succeeds_iff m =
      rw ((call-body m).0)
        (submit_row-ok_iff t current_tenant w tenant_id id (key_of m) (target m) (already_of m))
