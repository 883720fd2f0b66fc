-- ===== src/Rbac/Config/Values.antt =====
-- The values of a configuration file, as Go's `any`, and the readers of internal/rbac/config.go that
-- the sections share.
use mathlib.Core.Option.{Option, none, some}
use mathlib.Core.List.{List, [], ◌∷◌}
use grlx.Common.{Str, str, dec_str, ◌==◌, if◌then◌else◌}

mutual
  -- A text, a list of values, a list of texts, a map, or anything else.
  pub data Value : Type 0 where
    text : Str → Value
    items : Items → Value
    texts : List Str → Value
    table : Fields → Value
    other : Value

  pub data Items : Type 0 where
    nil : Items
    cons : Value → Items → Items

  pub data Fields : Type 0 where
    end : Fields
    field : Str → Value → Fields → Fields

-- `m[key]`
unfoldable pub at : Fields → Str → Option Value
unfolding dec_str
at end key = none
at (field name value fields) key =
    let rest = at fields key in if name == key then some value else rest

abbrev pub text_or_empty : Option Value → Str
text_or_empty (some (text s)) = s
text_or_empty _ = []

-- `s, _ := m[key].(string)`
unfoldable pub text_at : Fields → Str → Str
unfolding at
text_at m key = text_or_empty (at m key)

-- The loop of `parseStringSlice` over a list of values.
unfoldable pub texts_of : Items → List Str
texts_of nil = []
texts_of (cons (text s) rest) = s ∷ texts_of rest
texts_of (cons (items _) rest) = texts_of rest
texts_of (cons (texts _) rest) = texts_of rest
texts_of (cons (table _) rest) = texts_of rest
texts_of (cons other rest) = texts_of rest

-- `parseStringSlice`
unfoldable pub parse_string_slice : Option Value → List Str
unfolding texts_of
parse_string_slice none = []
parse_string_slice (some (text s)) = []
parse_string_slice (some (items xs)) = texts_of xs
parse_string_slice (some (texts ss)) = ss
parse_string_slice (some (table m)) = []
parse_string_slice (some other) = []

-- `userEntry`
pub record UserEntry : Type 0 where
  pub pubkey : Str
  pub username : Str

abbrev pub plain_entry : Str → UserEntry
plain_entry pubkey = record { pubkey = pubkey; username = [] }

-- An entry that is a map; one without a pubkey is left out.
unfoldable pub table_entry : Fields → List UserEntry → List UserEntry
unfolding text_at
table_entry m entries =
    if text_at m (str "pubkey") == []
    then entries
    else record { pubkey = text_at m (str "pubkey"); username = text_at m (str "username") }
      ∷ entries

-- The loop of `parseUserEntries`.
unfoldable pub entries_of : Items → List UserEntry
unfolding table_entry
entries_of nil = []
entries_of (cons (text s) rest) = plain_entry s ∷ entries_of rest
entries_of (cons (items _) rest) = entries_of rest
entries_of (cons (texts _) rest) = entries_of rest
entries_of (cons (table m) rest) = table_entry m (entries_of rest)
entries_of (cons other rest) = entries_of rest

-- `parseUserEntries`
unfoldable pub parse_user_entries : Value → List UserEntry
unfolding entries_of
parse_user_entries (text s) = plain_entry s ∷ []
parse_user_entries (items xs) = entries_of xs
parse_user_entries (texts ss) = []
parse_user_entries (table m) = []
parse_user_entries other = []
