-- ===== src/Diacritics.antt =====
-- `diacriticsMap` and `removeDiacritics` of scripts.js
-- (web/src/main/webapp/view/static/js/scripts.js).
mod Row
mod Upper
mod Lower
pub mod Removal
pub mod Complete
mod Tests
pub use Row.{Entry}
use cidemis.Base.{
  ℕ, String, Bool, true, false, Option, none, some, List, [], ◌∷◌, ◌++◌, Text, leb, ◌==◌,
  if◌then◌else◌,
}
use Upper.{upper_rows}
use Lower.{lower_rows}

-- `defaultDiacriticsRemovalap`
unfoldable pub removal_rows : List Entry
removal_rows = upper_rows ++ lower_rows

-- An object whose keys are single code units; the latest binding of a key counts.
abbrev pub CharMap : Type 0
CharMap = List (ℕ × Text)

unfoldable pub char_lookup : ℕ → CharMap → Option Text
char_lookup c [] = none
char_lookup c ((d, base) ∷ m) = if d == c then some base else char_lookup c m

-- The inner loop, over the letters of one row.
unfoldable pub bind_letters : Text → Text → CharMap → CharMap
bind_letters base [] m = m
bind_letters base (c ∷ letters) m = bind_letters base letters ((c, base) ∷ m)

-- The outer loop, over the rows.
unfoldable pub bind_rows : List Entry → CharMap → CharMap
bind_rows [] m = m
bind_rows (row ∷ rows) m = bind_rows rows (bind_letters row.base row.letters m)

unfoldable pub diacritics_map : CharMap
unfolding bind_rows bind_letters removal_rows
diacritics_map = bind_rows removal_rows []

-- `diacriticsMap[a] || a`: the empty text is falsy.
abbrev or_self : Option Text → ℕ → Text
or_self none c = c ∷ []
or_self (some []) c = c ∷ []
or_self (some (b ∷ base)) c = b ∷ base

-- What a code unit is replaced by: `/[^\u0000-\u007E]/g` finds those above 0x7E.
unfoldable pub replacement : CharMap → ℕ → Text
replacement m c = if leb c 0x7E then c ∷ [] else or_self (char_lookup c m) c

unfoldable pub remove_by : CharMap → Text → Text
remove_by m [] = []
remove_by m (c ∷ s) = replacement m c ++ remove_by m s

unfoldable pub remove_diacritics : Text → Text
unfolding remove_by replacement char_lookup diacritics_map
remove_diacritics s = remove_by diacritics_map s
