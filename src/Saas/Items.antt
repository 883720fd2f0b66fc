-- ===== src/Saas/Items.antt =====
-- internal/saasapi/model.go and sprout_actions.go: the items of a batch, and the statement that moves
-- one of them from a status to another.
pub mod Moves
use Prim.Native.Nat.{ℕ}
use mathlib.Core.Bool.{Bool, true, false, ◌&&◌}
use mathlib.Core.Option.{Option, none, some}
use grlx.Common.{Str, str, dec_str, ◌==◌, test, if◌then◌else◌}
use grlx.Common.Table.{Table}

-- `AssetActionItemStatus`
pub data ItemStatus : Type 0 where
  unresolved queued dispatching running succeeded failed unresponsive_after_update : ItemStatus

unfoldable pub dec_status : Discrete ItemStatus
dec_status = hlevel

-- `terminal`
unfoldable pub terminal : ItemStatus → Bool
terminal unresolved = true
terminal queued = false
terminal dispatching = false
terminal running = false
terminal succeeded = true
terminal failed = true
terminal unresponsive_after_update = true

-- `AssetActionItem`, without its times; an exit code is the word that holds it.
pub record Item : Type 0 where
  pub batch_id : Str
  pub asset_id : Str
  pub tenant_id : Str
  pub position : ℕ
  pub sprout_id : Str
  pub jid : Str
  pub status : ItemStatus
  pub error_code : Str
  pub exit_code : Option ℕ
  pub attempts : ℕ

-- The primary key of `asset_action_items`.
abbrev pub item_key : Item → Str × Str
item_key item = (item.batch_id, item.asset_id)

unfoldable pub dec_key : Discrete (Str × Str)
unfolding dec_str
dec_key = hlevel dec_str

-- The columns that an update of an item sets, besides the attempts.
pub record Update : Type 0 where
  pub to : ItemStatus
  pub code : Option Str
  pub exit : Option ℕ
  pub job : Option Str

-- An update of the status alone.
abbrev pub only : ItemStatus → Update
only status = record { to = status; code = none; exit = none; job = none }

-- `failedUpdate`
abbrev pub failed_update : Str → Update
failed_update code = record (only failed) { code = some code }

abbrev or_old {ℓ} : {A : Type ℓ} → Option A → A → A
or_old none old = old
or_old (some new) old = new

abbrev exit_of : Option ℕ → Option ℕ → Option ℕ
exit_of none old = old
exit_of (some new) old = some new

unfoldable pub assign : Update → Item → Item
assign u row = record row {
  status = u.to;
  error_code = or_old u.code row.error_code;
  exit_code = exit_of u.exit row.exit_code;
  jid = or_old u.job row.jid;
}

module _ (t : Table dec_key item_key) where
  open t use {State, find, save}

  -- `updateItem`: the rows of `itemScope` are the one with the key, if it has the tenant of the item
  -- and the status it is moved from. Whether a row was changed comes with it.
  unfoldable pub update_item : State → Item → ItemStatus → (Item → Item) → State × Bool
  update_item s item from change = elim (find s (item_key item)) [
    | none ↦ (s, false)
    | some row ↦
        if row.tenant_id == item.tenant_id && test (dec_status row.status from)
        then (save s (change row), true)
        else (s, false)
  ]
