-- ===== src/Pki/Enroll.antt =====
-- The enrollment of sprouts: internal/pki/enroll.go, with the box keys of boxkeys.go and the tokens of
-- tenant.go.
pub mod Names
pub mod Ways
pub mod Safety
pub mod Authority
pub mod Tokens
use Prim.Native.Nat.{ℕ, ◌+◌}
use mathlib.Core.Bool.{Bool, true, false, ◌&&◌, ◌||◌, not}
use mathlib.Core.Option.{Option, none, some}
use mathlib.Core.List.{List, [], ◌∷◌}
use native.Mathlib.Decide.{ℕ_discrete}
use grlx.Common.{
  Str, str, dec_str, ◌==◌, size, test, Result, ok, err, ◌>>=◌, ◌>>◌, leb, if◌then◌else◌,
}
use grlx.Common.Table.{Table, upsert, update}
use grlx.Pki.SproutId.{ltb, is_valid_sprout_id, is_valid_tenant_id}
use grlx.Pki.Keys.{
  Error, sprout_id_invalid, sprout_id_not_found, tenant_id_invalid, enrollment_failed, accepted,
  dec_state, NKeyRow, nkey_key, dec_key, Reload, account, World, upsert_nkey_row,
}
use grlx.Pki.Enroll.Names.{split_join_token, resolve_enroll_sprout_id}

-- `enrollmentKeyRow`, with its key.
pub record EnrollmentKeyRow : Type 0 where
  pub key_id : Str
  pub tenant_id : Str
  pub key_hash : Str
  pub expiry : ℕ
  pub max_uses : ℕ
  pub used_count : ℕ
  pub revoked : Bool

-- `sproutBoxKeyRow`
pub record SproutBoxKeyRow : Type 0 where
  pub tenant_id : Str
  pub sprout_id : Str
  pub box_pub : Str
  pub state : Str
  pub grace_until : Option ℕ

abbrev pub box_key : SproutBoxKeyRow → Str × Str × Str
box_key row = (row.tenant_id, row.sprout_id, row.box_pub)

unfoldable pub dec_box : Discrete (Str × Str × Str)
unfolding dec_str
dec_box = hlevel dec_str

abbrev pub box_key_state_active : Str
box_key_state_active = str "active"

-- `EnrollResult`
pub record EnrollResult : Type 0 where
  pub sprout_id : Str
  pub jwt : Str
  pub gateway_jwt : Str
  pub tenant_x25519_pub : Str

module _ (t : Table dec_key nkey_key) (kt : Table dec_str EnrollmentKeyRow.key_id)
    (bt : Table dec_box box_key) where
  -- The tables that an enrollment changes, the reloads with that of the sprouts.
  pub record Farm : Type 0 where
    pub enrollment_keys : kt.State
    pub sprouts : World t
    pub box_keys : bt.State

  -- What the code calls of other packages: text functions, cryptography, the files that hold the
  -- tokens of sprouts, and the signer of gateway tokens, if one is set.
  pub record Services : Type 0 where
    pub to_lower : Str → Str
    pub is_valid_public_user_key : Str → Bool
    pub decode_base64 : Str → Option Str
    pub sha256_hex : Str → Str
    pub read_jwt : Farm → Str → Str → Option Str
    pub tenant_x25519_public_key : Option Str
    pub mint_gateway_jwt : Option (Str → Str → Str → Option Str)

  module _ (services : Services) where
    -- `decodeBoxPub`, whether it succeeds
    pub is_box_pub : Str → Bool
    is_box_pub box_pub = elim (services.decode_base64 box_pub) [
      | none ↦ false
      | some raw ↦ test (ℕ_discrete (size raw) 32)
    ]

    -- `upsertSproutBoxKeyActive`
    unfoldable pub upsert_sprout_box_key_active : bt.State → Str → Str → Str → Option bt.State
    unfolding is_box_pub upsert
    upsert_sprout_box_key_active rows tenant_id sprout_id box_pub =
        if not (is_box_pub box_pub)
        then none
        else some (
            upsert bt rows
              (record {
                tenant_id = tenant_id;
                sprout_id = sprout_id;
                box_pub = box_pub;
                state = box_key_state_active;
                grace_until = none;
              })
              (λ old. record old { state = box_key_state_active; grace_until = none }))

    -- `GetSproutUserJWTForTenant`
    pub get_sprout_user_jwt : Farm → Str → Str → Result Error Str
    unfolding is_valid_tenant_id is_valid_sprout_id
    get_sprout_user_jwt farm tenant_id sprout_id =
        if not (is_valid_tenant_id tenant_id)
        then err tenant_id_invalid
        else if not (is_valid_sprout_id sprout_id)
        then err sprout_id_invalid
        else elim (services.read_jwt farm tenant_id sprout_id) [
          | none ↦ err sprout_id_not_found
          | some jwt ↦ ok jwt
        ]

    -- `mintGatewayJWTFor`
    pub mint_gateway_jwt_for : Str → Str → Str → Option Str
    mint_gateway_jwt_for tenant_id sprout_id nkey_pub = elim services.mint_gateway_jwt [
      | none ↦ none
      | some mint ↦ mint nkey_pub tenant_id sprout_id
    ]

    -- The tokens and keys of an answer, in the order in which both ends of `Enroll` get them.
    pub answer : Farm → Str → Str → Str → Result Error EnrollResult
    unfolding get_sprout_user_jwt mint_gateway_jwt_for
    answer farm tenant_id sprout_id nkey_pub = elim (get_sprout_user_jwt farm tenant_id sprout_id) [
      | err e ↦ err enrollment_failed
      | ok jwt ↦ elim services.tenant_x25519_public_key [
        | none ↦ err enrollment_failed
        | some tenant_pub ↦ elim (mint_gateway_jwt_for tenant_id sprout_id nkey_pub) [
          | none ↦ err enrollment_failed
          | some gateway_jwt ↦ ok (record {
            sprout_id = sprout_id;
            jwt = jwt;
            gateway_jwt = gateway_jwt;
            tenant_x25519_pub = tenant_pub;
          })
        ]
      ]
    ]

    -- `SproutIDAndTenantForNKey`: the first accepted row with the nkey.
    unfoldable pub first_row : List NKeyRow → Option NKeyRow
    first_row [] = none
    first_row (row ∷ rows) = some row

    unfoldable pub row_for_nkey : World t → Str → Option NKeyRow
    unfolding first_row
    row_for_nkey sprouts nkey =
        first_row
          (t.select sprouts.rows (λ row. row.nkey == nkey && test (dec_state row.state accepted)))

    -- What `Enroll` tests of the row of a token.
    pub check_enrollment_key : ℕ → Str → EnrollmentKeyRow → Result Error (Unit {0})
    unfolding is_valid_tenant_id
    check_enrollment_key now secret row =
        if not (services.sha256_hex secret == row.key_hash)
        then err enrollment_failed
        else if not (is_valid_tenant_id row.tenant_id)
        then err enrollment_failed
        else if row.revoked
        then err enrollment_failed
        else if ltb row.expiry now
        then err enrollment_failed
        else if leb row.max_uses row.used_count
        then err enrollment_failed
        else ok tt

    abbrev pub is_redeemable : ℕ → EnrollmentKeyRow → Bool
    is_redeemable db_now row =
        ltb row.used_count row.max_uses && not row.revoked && ltb db_now row.expiry

    -- `redeem`: whether the statement changed a row, and the table that it leaves.
    unfoldable pub redeem : ℕ → kt.State → Str → Bool × kt.State
    redeem db_now rows key_id = elim (kt.find rows key_id) [
      | none ↦ (false, rows)
      | some row ↦
          if is_redeemable db_now row
          then (true, kt.save rows (record row { used_count = row.used_count + 1 }))
          else (false, rows)
    ]

    -- `acceptEnrolledNKey`, with its deferred reload.
    unfoldable pub accept_enrolled_nkey : World t → Str → Str → Str → World t
    unfolding upsert_nkey_row
    accept_enrolled_nkey w tenant_id id nkey = record {
      rows =
          upsert_nkey_row t w.rows
            (record { tenant_id = tenant_id; sprout_id = id; nkey = nkey; state = accepted });
      reloads = account tenant_id ∷ w.reloads;
    }

    abbrev pub Enrollment : Type 0
    Enrollment = Result Error EnrollResult × Farm

    -- `Enroll` behind the redemption.
    pub accept_and_answer : Farm → Str → Str → Str → Str → Enrollment
    unfolding accept_enrolled_nkey upsert_sprout_box_key_active answer
    accept_and_answer farm tenant_id sprout_id nkey_pub sprout_pub =
        let sprouts = accept_enrolled_nkey farm.sprouts tenant_id sprout_id nkey_pub in
        elim (upsert_sprout_box_key_active farm.box_keys tenant_id sprout_id sprout_pub) [
          | none ↦ (err enrollment_failed, record farm { sprouts = sprouts })
          | some box_keys ↦
              (let farm' : Farm = record farm { sprouts = sprouts; box_keys = box_keys } in
                (answer farm' tenant_id sprout_id nkey_pub, farm'))
        ]

    -- `Enroll` from the redemption on, at the tables as other calls have left them since it chose the id of
    -- the sprout.
    pub redeem_and_accept :
        ℕ → (Farm → Farm) → Farm → EnrollmentKeyRow → Str → Str → Str → Enrollment
    unfolding redeem accept_and_answer
    redeem_and_accept db_now others farm row sprout_id nkey_pub sprout_pub =
        let (redeemed, enrollment_keys) = redeem db_now (others farm).enrollment_keys row.key_id in
        let farm' : Farm = record (others farm) { enrollment_keys = enrollment_keys } in
        if not redeemed
        then (err enrollment_failed, farm')
        else accept_and_answer farm' row.tenant_id sprout_id nkey_pub sprout_pub

    -- `Enroll` with a token, for an nkey that is not accepted.
    pub enroll_new : ℕ → ℕ → (Farm → Farm) → Farm → Str × Str → Str → Str → Str → Enrollment
    unfolding check_enrollment_key redeem_and_accept resolve_enroll_sprout_id
    enroll_new now db_now others farm (key_id, secret) nkey_pub hostname sprout_pub =
        elim (kt.find farm.enrollment_keys key_id) [
          | none ↦ (err enrollment_failed, farm)
          | some row ↦ elim (check_enrollment_key now secret row) [
            | err e ↦ (err enrollment_failed, farm)
            | ok _ ↦
                elim (resolve_enroll_sprout_id t services.to_lower farm.sprouts.rows row.tenant_id
                  hostname nkey_pub) [
                    | err e ↦ (err enrollment_failed, farm)
                    | ok sprout_id ↦
                        redeem_and_accept db_now others farm row sprout_id nkey_pub sprout_pub
                  ]
          ]
        ]

    -- `Enroll`, at the times that the program and the database read.
    unfoldable pub enroll : ℕ → ℕ → (Farm → Farm) → Farm → Str → Str → Str → Str → Enrollment
    unfolding is_box_pub row_for_nkey answer split_join_token enroll_new
    enroll now db_now others farm join_token nkey_pub hostname sprout_pub =
        if not (services.is_valid_public_user_key nkey_pub)
        then (err enrollment_failed, farm)
        else if not (is_box_pub sprout_pub)
        then (err enrollment_failed, farm)
        else elim (row_for_nkey farm.sprouts nkey_pub) [
          | some row ↦ (answer farm row.tenant_id row.sprout_id nkey_pub, farm)
          | none ↦ elim (split_join_token join_token) [
            | none ↦ (err enrollment_failed, farm)
            | some halves ↦ enroll_new now db_now others farm halves nkey_pub hostname sprout_pub
          ]
        ]
