-- ===== src/Setup/Places.antt =====
-- The order of the columns, and searches of cells.
use package.text.Mathlib.Text.{◌==◌ as str_eq}
use cidemis.Base.{
  ℕ, String, ◌≡◌, refl, Bool, true, false, ◌||◌, Option, none, some, List, [], ◌∷◌, Text, ltb,
  if◌then◌else◌, arith, Bool-cases, inl, inr,
}
use cidemis.Browser.{is}
use cidemis.Files.Counts.{count, count-append}
use cidemis.Columns.{kind_of}
use cidemis.Filters.{has_percent, search_value, search_pattern, searchtable}
use cidemis.Setup.{ai_order, searched_cell}

-- Where the positions of a user's seventeen columns are the numbers below 17, each once, the order
-- that is given to the library holds each number below 19 once, and no other.
pub count-ai_order :
    (positions : List ℕ)
    → ((n : ℕ) → count n positions ≡ (if ltb n 17 then 1 else 0))
    → (n : ℕ) → count n (ai_order positions) ≡ (if ltb n 19 then 1 else 0)
unfolding ai_order
count-ai_order positions h n = ground (arith, count-append n positions (17 ∷ 18 ∷ []), h n)

abbrev pub kind_text : Option String → String
kind_text none = "string"
kind_text (some kind) = kind

-- The other types of a column do not change how a cell is read.
plain_kind :
    (a b : Bool) (value : Text)
    → value
      ≡ searched_cell
          (kind_text
            (if a then some "publication-date" else if b then some "french-date" else none))
          value
unfolding searched_cell
plain_kind true b value = refl
plain_kind false true value = refl
plain_kind false false value = refl

search_value-searched_cell :
    (c : String) (value : Text)
    → search_value (some c) value ≡ searched_cell (kind_text (kind_of (some c))) value
unfolding search_value searched_cell
search_value-searched_cell c value = elim (Bool-cases (str_eq c "col_taggue")) [
  | inl tags ↦ elim (Bool-cases (str_eq c "col_titre")) [
    | inl both ↦ rw (tags, both) refl
    | inr _ ↦ rw tags (ground arith)
  ]
  | inr untagged ↦ elim (Bool-cases (str_eq c "col_titre")) [
    | inl titles ↦ rw (untagged, titles) refl
    | inr titleless ↦
        rw (untagged, titleless)
          (plain_kind (is (some c) "col_publication_date_debut")
            (is (some c) "col_date" || is (some c) "col_date_modif") value)
  ]
]

-- A text without % is searched in a column as the library reads a cell of the column's type which
-- holds that text.
pub searchtable-searched_cell :
    (col_name : String) (value : Text)
    → has_percent (search_value (some col_name) value) ≡ false
    → (searchtable (some col_name) value).pattern
      ≡ searched_cell (kind_text (kind_of (some col_name))) value
unfolding searchtable search_pattern search_value searched_cell
searchtable-searched_cell col_name value h = rw h (search_value-searched_cell col_name value)
