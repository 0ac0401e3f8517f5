-- ===== src/Diacritics/Complete.antt =====
-- The map that the two loops build holds every letter of the table.
use cidemis.Base.{◌≡◌, refl, Bool, true, List, [], ◌∷◌, Text, same, and_left, and_right, All, all}
use cidemis.Base.Strings.Laws.{same→eq}
use cidemis.Diacritics.{Entry, removal_rows, CharMap, diacritics_map, char_lookup, replacement}

-- Each letter of a row is replaced by the base of the row.
abbrev IsReplaced : CharMap → Entry → Type 0
IsReplaced m row = All (λ c. replacement m c ≡ row.base) row.letters

letters_ok : CharMap → Text → Text → Bool
letters_ok m base letters = all (λ c. same (replacement m c) base) letters

rows_ok : CharMap → List Entry → Bool
rows_ok m rows = all (λ row. letters_ok m row.base row.letters) rows

table_ok : rows_ok diacritics_map removal_rows ≡ true
unfolding rows_ok letters_ok replacement same char_lookup diacritics_map removal_rows
table_ok = refl

letters_ok_sound :
    (m : CharMap) (base letters : Text)
    → letters_ok m base letters ≡ true
    → All (λ c. replacement m c ≡ base) letters
unfolding letters_ok
letters_ok_sound m base [] h = tt
letters_ok_sound m base (c ∷ letters) h =
    (same→eq _ _ (and_left _ _ h), letters_ok_sound m base letters (and_right _ _ h))

rows_ok_sound : (m : CharMap) (rows : List Entry) → rows_ok m rows ≡ true → All (IsReplaced m) rows
unfolding rows_ok
rows_ok_sound m [] h = tt
rows_ok_sound m (row ∷ rows) h = (
  letters_ok_sound m row.base row.letters (and_left _ _ h),
  rows_ok_sound m rows (and_right _ _ h),
)

-- Every letter of every row of the table is replaced by the base of its row.
pub diacritics_map_complete : All (IsReplaced diacritics_map) removal_rows
diacritics_map_complete = rows_ok_sound diacritics_map removal_rows table_ok
