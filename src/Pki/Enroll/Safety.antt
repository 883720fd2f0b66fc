-- ===== src/Pki/Enroll/Safety.antt =====
-- What `Enroll` of internal/pki/enroll.go does to the keys of sprouts, and whom it admits.
use Prim.Native.Nat.{ℕ, zero, suc}
use mathlib.Core.Path.{◌≡◌, refl, ap, ◌∙◌, subst, sym}
use mathlib.Core.Logic.{◌⊎◌, inl, inr}
use mathlib.Core.Bool.{true}
use mathlib.Core.Option.{none, some}
use native.Mathlib.Omega.{arith}
use grlx.Common.{Str, dec_str, ok, Bool-cases, Option-cases}
use grlx.Common.Table.{Table, find-save_self, find-save_ne}
use grlx.Pki.SproutId.{is_valid_sprout_id}
use grlx.Pki.Keys.{accepted, NKeyRow, nkey_key, dec_key, find_nkey_row, nkey_exists}
use grlx.Pki.Keys.Rows.{upsert_nkey_row-save}
use grlx.Pki.Enroll.{
  EnrollmentKeyRow, dec_box, box_key, Farm, Services, Enrollment, accept_enrolled_nkey,
  upsert_sprout_box_key_active, accept_and_answer, enroll,
}
use grlx.Pki.Enroll.Names.{numbered, is_open, try_numbers, enroll_base, resolve_enroll_sprout_id}
use grlx.Pki.Enroll.Ways.{Way, refused, replayed, used_up, admitted, enroll-Way}

module _ (t : Table dec_key nkey_key) where
  open t use {State, find}

  -- No row has an id that `IsValidSproutID` refuses.
  abbrev pub AreValid : State → Type 0
  AreValid rows =
      (k : Str × Str) (row : NKeyRow) → find rows k ≡ some row → is_valid_sprout_id k.1 ≡ true

  -- An id that is not registered, or is with the nkey.
  abbrev pub IsFreeFor : State → Str × Str → Str → Type 0
  IsFreeFor rows k nkey =
      (find rows k ≡ none) ⊎ ((old : NKeyRow) × (find rows k ≡ some old) × (old.nkey ≡ nkey))

  is_open-IsFreeFor :
      (rows : State) (tenant_id id nkey : Str)
      → AreValid rows
      → is_open t rows tenant_id id nkey ≡ true
      → IsFreeFor rows (tenant_id, id) nkey
  unfolding is_open nkey_exists find_nkey_row
  is_open-IsFreeFor rows tenant_id id nkey valid h =
      elim (Option-cases (find rows (tenant_id, id))) [
        | inl absent ↦ inl absent
        | inr (old, found) ↦
            let good = valid (tenant_id, id) old found in inr (old, found, ground arith)
      ]

  try_numbers-is_open :
      (k i : ℕ) (rows : State) (tenant_id base nkey id : Str)
      → try_numbers t k i rows tenant_id base nkey ≡ ok id
      → is_open t rows tenant_id id nkey ≡ true
  unfolding try_numbers
  try_numbers-is_open zero i rows tenant_id base nkey id h = absurd (cc)
  try_numbers-is_open (suc k) i rows tenant_id base nkey id h =
      elim (Bool-cases (is_open t rows tenant_id (numbered base i) nkey)) [
        | inl e ↦
            (let same : numbered base i ≡ id = ground arith in
              subst (λ x. is_open t rows tenant_id x nkey ≡ true) same e)
        | inr e ↦ try_numbers-is_open k (suc i) rows tenant_id base nkey id (ground arith)
      ]

  resolve-is_open :
      (to_lower : Str → Str) (rows : State) (tenant_id hostname nkey id : Str)
      → resolve_enroll_sprout_id t to_lower rows tenant_id hostname nkey ≡ ok id
      → is_open t rows tenant_id id nkey ≡ true
  unfolding resolve_enroll_sprout_id
  resolve-is_open to_lower rows tenant_id hostname nkey id h =
      let base = enroll_base to_lower hostname in
      elim (Bool-cases (is_valid_sprout_id base)) [
        | inr bad ↦ absurd (ground arith)
        | inl good ↦ elim (Bool-cases (is_open t rows tenant_id base nkey)) [
          | inl e ↦
              (let same : base ≡ id = ground arith in
                subst (λ x. is_open t rows tenant_id x nkey ≡ true) same e)
          | inr e ↦ try_numbers-is_open 99 1 rows tenant_id base nkey id (ground arith)
        ]
      ]

module _ (t : Table dec_key nkey_key) (kt : Table dec_str EnrollmentKeyRow.key_id)
    (bt : Table dec_box box_key) (services : Services t kt bt) where
  pub accept_and_answer-rows :
      (farm : Farm t kt bt) (tenant_id sprout_id nkey_pub sprout_pub : Str)
      → (accept_and_answer t kt bt services farm tenant_id sprout_id nkey_pub
          sprout_pub).1.sprouts.rows
        ≡ t.save farm.sprouts.rows (record {
          tenant_id = tenant_id;
          sprout_id = sprout_id;
          nkey = nkey_pub;
          state = accepted;
        })
  unfolding accept_and_answer accept_enrolled_nkey
  accept_and_answer-rows farm tenant_id sprout_id nkey_pub sprout_pub =
      elim (Option-cases (
        upsert_sprout_box_key_active t kt bt services farm.box_keys tenant_id sprout_id
          sprout_pub)) [
            | inl bad ↦ rw (accept_and_answer, bad) (upsert_nkey_row-save t farm.sprouts.rows _)
            | inr (box_keys, stored) ↦
                rw (accept_and_answer, stored) (upsert_nkey_row-save t farm.sprouts.rows _)
          ]

  pub accept_and_answer-keys :
      (farm : Farm t kt bt) (tenant_id sprout_id nkey_pub sprout_pub : Str)
      → (accept_and_answer t kt bt services farm tenant_id sprout_id nkey_pub
          sprout_pub).1.enrollment_keys
        ≡ farm.enrollment_keys
  unfolding accept_and_answer
  accept_and_answer-keys farm tenant_id sprout_id nkey_pub sprout_pub =
      elim (Option-cases (
        upsert_sprout_box_key_active t kt bt services farm.box_keys tenant_id sprout_id
          sprout_pub)) [
            | inl bad ↦ rw (accept_and_answer, bad) refl
            | inr (box_keys, stored) ↦ rw (accept_and_answer, stored) refl
          ]

  module _ (now db_now : ℕ) (others : Farm t kt bt → Farm t kt bt) (farm : Farm t kt bt)
      (join_token nkey_pub hostname sprout_pub : Str) where
    -- What is found under a key is what was found when the enrollment chose its id, or what other calls
    -- made of that until it wrote, or the accepted row of the caller's nkey where, when it chose, there was
    -- nothing or a row with that nkey.
    unfoldable pub IsKept : (Str × Str) → Enrollment t kt bt services → Type 0
    IsKept k e =
        (t.find e.1.sprouts.rows k ≡ t.find farm.sprouts.rows k)
        ⊎ (t.find e.1.sprouts.rows k ≡ t.find (others farm).sprouts.rows k)
        ⊎ ((t.find e.1.sprouts.rows k
              ≡ some
                  (record { tenant_id = k.0; sprout_id = k.1; nkey = nkey_pub; state = accepted }))
            × IsFreeFor t farm.sprouts.rows k nkey_pub)

    admitted-IsKept :
        (k : Str × Str) (keys : kt.State) (tenant_id id : Str)
        → IsFreeFor t farm.sprouts.rows (tenant_id, id) nkey_pub
        → IsKept k (
            accept_and_answer t kt bt services
              (record (others farm) { enrollment_keys = keys })
              tenant_id
              id
              nkey_pub
              sprout_pub)
    unfolding IsKept dec_key
    admitted-IsKept k keys tenant_id id free =
        let row : NKeyRow = record {
          tenant_id = tenant_id;
          sprout_id = id;
          nkey = nkey_pub;
          state = accepted;
        } in
        let saved =
          ap (λ s. t.find s k)
            (accept_and_answer-rows (record (others farm) { enrollment_keys = keys }) tenant_id id
              nkey_pub sprout_pub) in
        elim (dec_key (tenant_id, id) k) [
          | no ne ↦ inr (inl (saved ∙ find-save_ne t (others farm).sprouts.rows row k ne))
          | yes e ↦ inr (
              inr (
                saved
                    ∙ subst
                        (λ j.
                          t.find (t.save (others farm).sprouts.rows row) j
                          ≡ some (record {
                            tenant_id = j.0;
                            sprout_id = j.1;
                            nkey = nkey_pub;
                            state = accepted;
                          }))
                        e (find-save_self t (others farm).sprouts.rows row),
                subst (λ j. IsFreeFor t farm.sprouts.rows j nkey_pub) e free,
              ))
        ]

    Way-IsKept :
        (k : Str × Str) {e : Enrollment t kt bt services}
        → AreValid t farm.sprouts.rows
        → Way t kt bt services now db_now others farm join_token nkey_pub hostname sprout_pub e
        → IsKept k e
    unfolding IsKept
    Way-IsKept k valid (refused e) = inl (ap (λ x. t.find x.1.sprouts.rows k) e)
    Way-IsKept k valid (replayed row known e) = inl (ap (λ x. t.find x.1.sprouts.rows k) e)
    Way-IsKept k valid (used_up keys e) = inr (inl (ap (λ x. t.find x.1.sprouts.rows k) e))
    Way-IsKept k valid (admitted key_id secret row id split found c named won e) =
        subst (IsKept k) (sym e) (
          admitted-IsKept k _ row.tenant_id id (
            is_open-IsFreeFor t farm.sprouts.rows row.tenant_id id nkey_pub valid (
              resolve-is_open t services.to_lower farm.sprouts.rows row.tenant_id hostname nkey_pub
                id named)))

-- Whatever `Enroll` returns, with a table of sprouts that has no row with an invalid id when it chooses an
-- id: what is found under a key afterwards is what was found then, or what other calls have made of that
-- before it wrote, or the accepted row of the caller's nkey, and then there was, when it chose, no row
-- under the key, or one with the same nkey.
pub enroll-IsKept :
    (t : Table dec_key nkey_key) (kt : Table dec_str EnrollmentKeyRow.key_id)
    (bt : Table dec_box box_key) (services : Services t kt bt) (now db_now : ℕ)
    (others : Farm t kt bt → Farm t kt bt) (farm : Farm t kt bt)
    (join_token nkey_pub hostname sprout_pub : Str) (k : Str × Str)
    → AreValid t farm.sprouts.rows
    → IsKept t kt bt services now db_now others farm join_token nkey_pub hostname sprout_pub k
        (enroll t kt bt services now db_now others farm join_token nkey_pub hostname sprout_pub)
enroll-IsKept t kt bt services now db_now others farm join_token nkey_pub hostname sprout_pub k
      valid =
    Way-IsKept t kt bt services now db_now others farm join_token nkey_pub hostname sprout_pub k
      valid
      (enroll-Way t kt bt services now db_now others farm join_token nkey_pub hostname sprout_pub)
