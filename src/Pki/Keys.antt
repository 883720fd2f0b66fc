-- ===== src/Pki/Keys.antt =====
-- internal/pki/pki.go and store.go: the states of sprout keys, over the table `pki_nkeys`, with
-- the reloads of the message bus that they ask for.
pub mod Rows
pub mod Accept
pub mod Transitions
use mathlib.Core.Bool.{Bool, true, false, ◌&&◌, ◌||◌, not}
use mathlib.Core.Option.{Option, none, some}
use mathlib.Core.List.{List, [], ◌∷◌, map}
use grlx.Common.{Str, str, dec_str, ◌==◌, test, Result, ok, err, ◌>>=◌, ◌>>◌, if◌then◌else◌}
use grlx.Common.Table.{Table, upsert, update}
use grlx.Pki.SproutId.{is_valid_sprout_id, base_of, has_underscore}

-- The sentinel errors of pkitypes.go that these operations return.
pub data Error : Type 0 where
  already_accepted already_denied already_rejected already_unaccepted : Error
  sprout_id_invalid sprout_id_not_found tenant_not_found tenant_id_invalid : Error
  -- the error that `resolveEnrollSproutID` makes itself, and the one of enroll.go
  too_many_sprouts enrollment_failed : Error

pub data KeyState : Type 0 where
  unaccepted accepted denied rejected : KeyState

unfoldable pub dec_state : Discrete KeyState
dec_state = hlevel

pub record NKeyRow : Type 0 where
  pub tenant_id : Str
  pub sprout_id : Str
  pub nkey : Str
  pub state : KeyState

-- The primary key of `pki_nkeys`.
abbrev pub nkey_key : NKeyRow → Str × Str
nkey_key row = (row.tenant_id, row.sprout_id)

unfoldable pub dec_key : Discrete (Str × Str)
unfolding dec_str
dec_key = hlevel dec_str

-- What `reloadNKeysFor` reloads: the flat single-tenant account, or the account of one tenant.
pub data Reload : Type 0 where
  legacy : Reload
  account : Str → Reload

abbrev pub reload_for : Str → Str → Reload
reload_for current_tenant tenant_id =
    if tenant_id == current_tenant then legacy else account tenant_id

module _ (t : Table dec_key nkey_key) where
  open t use {State, find, delete, select}

  -- The table, and the reloads so far, the last one first.
  pub record World : Type 0 where
    pub rows : State
    pub reloads : List Reload

  -- An operation returns its error and the world that it leaves.
  abbrev pub Outcome : Type 0
  Outcome = Result Error (Unit {0}) × World

  -- The deferred call of `reloadNKeysFor`, whose own failure is only logged.
  abbrev pub and_reload : Str → Str → Outcome → Outcome
  and_reload current_tenant tenant_id (result, w) =
      (result, record w { reloads = reload_for current_tenant tenant_id ∷ w.reloads })

  -- `findNKeyRowInTenant`
  unfoldable pub find_nkey_row : State → Str → Str → Result Error NKeyRow
  find_nkey_row rows tenant_id id =
      if not (is_valid_sprout_id id)
      then err sprout_id_invalid
      else elim (find rows (tenant_id, id)) [ none ↦ err sprout_id_not_found | some row ↦ ok row ]

  -- `upsertNKeyRow`: the nkey and the state are assigned.
  unfoldable pub upsert_nkey_row : State → NKeyRow → State
  unfolding upsert
  upsert_nkey_row rows row =
      upsert t rows row (λ old. record old { nkey = row.nkey; state = row.state })

  -- `setStateInTenant`
  unfoldable pub set_state : State → Str → Str → KeyState → State
  unfolding update
  set_state rows tenant_id id state =
      update t rows (tenant_id, id) (λ old. record old { state = state })

  module _ (current_tenant : Str) where
    pub delete_row : World → Str → Str → Outcome
    delete_row w tenant_id id =
        if not (is_valid_sprout_id id)
        then (err sprout_id_invalid, w)
        else elim (find w.rows (tenant_id, id)) [
          | none ↦ (err sprout_id_not_found, record w { rows = delete w.rows (tenant_id, id) })
          | some _ ↦ (ok tt, record w { rows = delete w.rows (tenant_id, id) })
        ]

    -- `DeleteNKey`; a delete that affects no row is an error.
    unfoldable pub delete_nkey : World → Str → Str → Outcome
    unfolding delete_row
    delete_nkey w tenant_id id = and_reload current_tenant tenant_id (delete_row w tenant_id id)

    -- The transaction of `AcceptNKey`: the row of `id` goes, and its key is stored under `base`.
    pub accept_transaction : State → Str → Str → Str → Str → State
    unfolding upsert_nkey_row
    accept_transaction rows tenant_id id base nkey =
        upsert_nkey_row (delete rows (tenant_id, id))
          (record { tenant_id = tenant_id; sprout_id = base; nkey = nkey; state = accepted })

    pub accept_found : World → Str → Str → Str → NKeyRow → Outcome
    unfolding delete_nkey accept_transaction dec_state
    accept_found w tenant_id id base row =
        let w' : World = if has_underscore id then (delete_nkey w tenant_id base).1 else w in
        if id == base && test (dec_state row.state accepted)
        then (err already_accepted, w')
        else (ok tt, record w' { rows = accept_transaction w'.rows tenant_id id base row.nkey })

    pub accept_row : World → Str → Str → Outcome
    unfolding accept_found find_nkey_row
    accept_row w tenant_id id =
        let base = base_of id in
        if not (is_valid_sprout_id base)
        then (err sprout_id_invalid, w)
        else elim (find_nkey_row w.rows tenant_id id) [
          | err e ↦ (err e, w)
          | ok row ↦ accept_found w tenant_id id base row
        ]

    -- `AcceptNKey`
    unfoldable pub accept_nkey : World → Str → Str → Outcome
    unfolding accept_row
    accept_nkey w tenant_id id = and_reload current_tenant tenant_id (accept_row w tenant_id id)

    -- The common end of `DenyNKey`, `UnacceptNKey` and `RejectNKey`: a row that is in the state
    -- already is an error.
    pub move_to : World → Str → Str → KeyState → Error → NKeyRow → Outcome
    unfolding set_state dec_state
    move_to w tenant_id id state already row =
        if test (dec_state row.state state)
        then (err already, w)
        else (ok tt, record w { rows = set_state w.rows tenant_id id state })

    pub deny_row : World → Str → Str → Outcome
    unfolding move_to find_nkey_row
    deny_row w tenant_id id =
        if not (is_valid_sprout_id id)
        then (err sprout_id_invalid, w)
        else elim (find_nkey_row w.rows tenant_id id) [
          | err e ↦ (err e, w)
          | ok row ↦ move_to w tenant_id id denied already_denied row
        ]

    -- `DenyNKey`
    unfoldable pub deny_nkey : World → Str → Str → Outcome
    unfolding deny_row
    deny_nkey w tenant_id id = and_reload current_tenant tenant_id (deny_row w tenant_id id)

    abbrev pub is_not_found : Error → Bool
    is_not_found sprout_id_not_found = true
    is_not_found _ = false

    -- The body that `UnacceptNKey` and `RejectNKey` share: a submitted key of an unknown sprout is
    -- stored in the state.
    pub submit_row : World → Str → Str → Str → KeyState → Error → Outcome
    unfolding move_to find_nkey_row upsert_nkey_row
    submit_row w tenant_id id nkey state already =
        if not (is_valid_sprout_id id)
        then (err sprout_id_invalid, w)
        else elim (find_nkey_row w.rows tenant_id id) [
          | err e ↦
              if not (nkey == []) && is_not_found e
              then (
                ok tt,
                record w {
                  rows = upsert_nkey_row w.rows (record {
                    tenant_id = tenant_id;
                    sprout_id = id;
                    nkey = nkey;
                    state = state;
                  });
                },
              )
              else (err e, w)
          | ok row ↦ move_to w tenant_id id state already row
        ]

    -- `UnacceptNKey`
    unfoldable pub unaccept_nkey : World → Str → Str → Str → Outcome
    unfolding submit_row
    unaccept_nkey w tenant_id id nkey =
        and_reload current_tenant tenant_id
          (submit_row w tenant_id id nkey unaccepted already_unaccepted)

    -- `RejectNKey`
    unfoldable pub reject_nkey : World → Str → Str → Str → Outcome
    unfolding submit_row
    reject_nkey w tenant_id id nkey =
        and_reload current_tenant tenant_id
          (submit_row w tenant_id id nkey rejected already_rejected)

  -- `NKeyExistsInTenant`: whether the sprout is registered, and whether its key is the given one.
  unfoldable pub nkey_exists : State → Str → Str → Str → Bool × Bool
  unfolding find_nkey_row
  nkey_exists rows tenant_id id nkey = elim (find_nkey_row rows tenant_id id) [
    | err e ↦ (false, false)
    | ok row ↦ (true, row.nkey == nkey)
  ]

  -- The switch of `GetNKeysByType` on the name of a state.
  parse_state : Str → Option KeyState
  parse_state set =
      if set == str "unaccepted"
      then some unaccepted
      else if set == str "accepted"
      then some accepted
      else if set == str "denied"
      then some denied
      else if set == str "rejected"
      then some rejected
      else none

  -- `GetNKeysByType`: the sprout ids of a state.
  unfoldable pub get_nkeys_by_type : State → Str → Str → List Str
  unfolding parse_state
  get_nkeys_by_type rows tenant_id set = elim (parse_state set) [
    | none ↦ []
    | some state ↦
        map NKeyRow.sprout_id
          (select rows (λ row. row.tenant_id == tenant_id && test (dec_state row.state state)))
  ]
