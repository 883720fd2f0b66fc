-- ===== src/Saas/Actions.antt =====
-- internal/saasapi/sprout_actions.go: the checks of a request for an action, and the batch that is
-- written for it.
pub mod Requests
use Prim.Native.Nat.{ℕ, zero, suc, ◌+◌, ◌*◌, ◌%◌, ◌^◌}
use mathlib.Core.Bool.{Bool, true, false, ◌&&◌, ◌||◌, not}
use mathlib.Core.Option.{Option, none, some}
use mathlib.Core.List.{List, [], ◌∷◌, ◌++◌, map}
use grlx.Common.{
  Str, str, dec_str, ◌==◌, byte_eq, leb, size, length, contains, keep, test, Result, ok, err, ◌>>=◌,
  if◌then◌else◌,
}
use grlx.Common.Dict.{lookup, insert}
use grlx.Common.Table.{Table}
use grlx.Saas.Items.{Item, ItemStatus, unresolved, queued, failed, dec_status, item_key, dec_key}
use grlx.Saas.Dispatch.{Batch}

-- Why a request is refused; an index out of range is a panic.
pub data Refusal : Type 0 where
  invalid_request unsupported_action too_many_asset_ids conflict panics : Refusal

-- `strings.TrimSpace` and `strings.Fields`, which know the spaces of Unicode.
pub record Spaces : Type 0 where
  pub trim_space : Str → Str
  pub fields : Str → List Str

-- `strings.ContainsAny` and `strings.ContainsRune`, of single bytes
unfoldable pub contains_byte : Str → ℕ → Bool
contains_byte [] c = false
contains_byte (d ∷ s) c = byte_eq d c || contains_byte s c

unfoldable pub contains_any : Str → Str → Bool
unfolding contains_byte
contains_any [] chars = false
contains_any (c ∷ s) chars = contains_byte chars c || contains_any s chars

-- `shellSyntax`
abbrev pub shell_syntax : Str
shell_syntax = str "\"'\\`$|&;<>(){}*?[]~\n\r"

abbrev exceeds : ℕ → ℕ → Bool
exceeds n limit = not (leb n limit)

-- An `int` or a `time.Duration` is the word of 64 bits that holds it.
abbrev pub is_negative : ℕ → Bool
is_negative word = leb (2 ^ 63) word

-- `time.Duration(seconds) * time.Second`, which wraps.
unfoldable pub in_nanoseconds : ℕ → ℕ
in_nanoseconds seconds = (seconds * 1000000000) % 2 ^ 64

-- `maxCmdTimeout` and `defaultCmdTimeout`
abbrev pub max_cmd_timeout : ℕ
max_cmd_timeout = 600000000000

abbrev pub default_cmd_timeout : ℕ
default_cmd_timeout = 60000000000

pub record CmdRunInput : Type 0 where
  pub cmd : Str
  pub args : Option (List Str)
  pub cwd : Str
  pub run_as : Str
  pub timeout_seconds : ℕ

pub record FarmerCmdRun : Type 0 where
  pub command : Str
  pub args : List Str
  pub cwd : Str
  pub run_as : Str
  pub timeout : ℕ

pub record CookInput : Type 0 where
  pub recipe : Str
  pub is_test : Bool

unfoldable pub are_plain : List Str → Bool
unfolding contains_byte
are_plain [] = true
are_plain (a ∷ args) =
    let rest = are_plain args in if exceeds (size a) 4096 || contains_byte a 0 then false else rest

-- The guards of `translateCmdRun` before the arguments.
unfoldable pub is_bad_cmd_run : Str → CmdRunInput → Bool
unfolding contains_byte dec_str in_nanoseconds
is_bad_cmd_run cmd p =
    cmd == []
    || exceeds (size p.cmd) 4096
    || contains_byte p.cmd 0
    || exceeds (elim p.args [ none ↦ 0 | some args ↦ length args ]) 256
    || is_negative p.timeout_seconds
    || not (is_negative (in_nanoseconds p.timeout_seconds))
      && exceeds (in_nanoseconds p.timeout_seconds) max_cmd_timeout

-- `translateCook`
unfoldable pub translate_cook : Spaces → CookInput → Result Refusal CookInput
unfolding contains_any dec_str
translate_cook spaces p =
    let recipe = spaces.trim_space p.recipe in
    if recipe == [] || exceeds (size recipe) 255 || contains_any recipe (32 ∷ 9 ∷ 13 ∷ 10 ∷ 0 ∷ [])
    then err invalid_request
    else ok (record { recipe = recipe; is_test = p.is_test })

-- The command and the arguments that `translateCmdRun` makes.
unfoldable pub command_of : Spaces → Str → Option (List Str) → Result Refusal (Str × List Str)
unfolding contains_any are_plain
command_of spaces cmd none =
    if contains_any cmd shell_syntax
    then err invalid_request
    else elim (spaces.fields cmd) [ [] ↦ err panics | first ∷ rest ↦ ok (first, rest) ]
command_of spaces cmd (some args) = if are_plain args then ok (cmd, args) else err invalid_request

-- The timeout for the seconds of a request, where 0 asks for the default.
abbrev pub timeout_of : ℕ → ℕ
timeout_of zero = default_cmd_timeout
timeout_of (suc n) = in_nanoseconds (suc n)

-- The end of `translateCmdRun`.
unfoldable pub with_limits : CmdRunInput → Str × List Str → Result Refusal FarmerCmdRun
unfolding in_nanoseconds
with_limits p (command, args) =
    if exceeds (size p.cwd) 4096 || exceeds (size p.run_as) 255
    then err invalid_request
    else ok (record {
      command = command;
      args = args;
      cwd = p.cwd;
      run_as = p.run_as;
      timeout = timeout_of p.timeout_seconds;
    })

-- `translateCmdRun`
unfoldable pub translate_cmd_run : Spaces → CmdRunInput → Result Refusal FarmerCmdRun
unfolding is_bad_cmd_run command_of with_limits
translate_cmd_run spaces p =
    let cmd = spaces.trim_space p.cmd in
    if is_bad_cmd_run cmd p
    then err invalid_request
    else command_of spaces cmd p.args >>= with_limits p

-- The loop of `parseActionAssetIDs`; its map of the seen ids holds those of the list.
unfoldable pub collect_ids : Spaces → List Str → List Str → Result Refusal (List Str)
unfolding contains dec_str
collect_ids spaces [] ids = ok ids
collect_ids spaces (raw ∷ raws) ids =
    let id = spaces.trim_space raw in
    let new = collect_ids spaces raws (ids ++ id ∷ []) in
    let old = collect_ids spaces raws ids in
    if id == []
    then err invalid_request
    else if exceeds (size id) 191
    then err invalid_request
    else if not (contains ids id)
    then new
    else old

abbrev pub some_ids : List Str → Result Refusal (List Str)
some_ids [] = err invalid_request
some_ids (id ∷ ids) = ok (id ∷ ids)

-- `parseActionAssetIDs`
unfoldable pub parse_action_asset_ids : Spaces → List Str → Result Refusal (List Str)
unfolding collect_ids
parse_action_asset_ids spaces raw =
    if exceeds (length raw) 100
    then err too_many_asset_ids
    else collect_ids spaces raw [] >>= some_ids
