-- ===== src/Exports.antt =====
-- The export of requests: `exportDemandes` and `jQuery.download` of scripts.js, and the lists of
-- numbers that they take from the table (`getAllDemandes`, `getFilteredDemandes` and
-- `getSelectedDemandes` of datatables.js). What the table's library answers is given.
pub mod Fields
pub mod Chosen
mod Tests
use package.text.Mathlib.Text.{◌==◌ as str_eq}
use cidemis.Base.{
  String, Bool, true, false, Option, none, some, List, [], ◌∷◌, ◌++◌, Text, codes, split, map,
  if◌then◌else◌,
}
use cidemis.Browser.{first, World, val, is, on, hide}
use cidemis.Submit.{submit}

-- A cell of the table, as its library gives it: a text, or an array.
pub data Cell : Type 0 where
  value : Text → Cell
  array : List Text → Cell

-- What the library answers for the column `col_demande_num`: all rows, those that the search leaves,
-- and the cells of the rows with the class `selected`.
pub record Numbers : Type 0 where
  pub all : List Text
  pub filtered : List Text
  pub selected : List Cell

-- `data` is what the library answers for the columns of a selector and the modifier `search`, column by
-- column; the answer is the first column, or `undefined` if there is none.
unfoldable pub get_all_demandes : (String → Option String → List (List Text)) → Option (List Text)
get_all_demandes data_ = first (data_ "col_demande_num:name" none)

unfoldable pub get_filtered_demandes :
    (String → Option String → List (List Text)) → Option (List Text)
get_filtered_demandes data_ = first (data_ "col_demande_num:name" (some "applied"))

unfoldable pub get_selected : List Cell → List Text
get_selected [] = []
get_selected (value v ∷ cs) = v ∷ get_selected cs
get_selected (array _ ∷ cs) = get_selected cs

unfoldable pub array_id : Option String → Numbers → List Text
unfolding get_selected
array_id export_type t =
    if is export_type "exportall"
    then t.all
    else if is export_type "exportfiltered"
    then t.filtered
    else if is export_type "exportselected"
    then get_selected t.selected
    else []

-- An array in a text.
unfoldable pub join : List Text → Text
join [] = []
join (a ∷ []) = a
join (a ∷ b ∷ as') = a ++ b',' ∷ join (b ∷ as')

abbrev pub bool_text : Bool → Text
bool_text true = codes "true"
bool_text false = codes "false"

unfoldable pub export_data : Bool → Bool → List Text → Text
unfolding join codes
export_data allcolumns includecomments ids =
    codes "allcolumns="
    ++ (bool_text allcolumns
        ++ (codes "&includecomments=" ++ (bool_text includecomments ++ (codes "&id=" ++ join ids))))

-- `pair[0]` and `pair[1]`, which may be missing.
abbrev pub pair_of : List Text → Text × Option Text
pair_of [] = ([], none)
pair_of (name ∷ []) = (name, none)
pair_of (name ∷ v ∷ _) = (name, some v)

-- The hidden fields of the form that `download` makes of a text.
unfoldable pub hidden_fields : Text → List (Text × Option Text)
hidden_fields data_ = map (λ part. pair_of (split (b'=' ∷ []) part)) (split (b'&' ∷ []) data_)

-- A form that was made for a download: its address and its fields.
pub record Download : Type 0 where
  pub url : String
  pub inputs : List (Text × Option Text)

-- `$.download`, which does nothing without an address or without data.
unfoldable pub download : String → Text → Option Download
download url [] = none
download url (c ∷ s) =
    if str_eq url "" then none else some (record { url = url; inputs = hidden_fields (c ∷ s) })

-- The page after `exportDemandes`, and the download that was started. The two flags are whether the
-- checkboxes of the popup are checked.
unfoldable pub export_ids : List Text → Bool → Bool → World → World × Option Download
export_ids [] allcolumns includecomments w =
    (record w { dialogs = "Aucune demande n'est sélectionnée !" ∷ w.dialogs }, none)
export_ids (a ∷ as') allcolumns includecomments w =
    (w, download "exportdemande" (export_data allcolumns includecomments (a ∷ as')))

unfoldable pub export_demandes : Numbers → Bool → Bool → World → World × Option Download
export_demandes t allcolumns includecomments w =
    let w' = on "#popup" hide w in
    export_ids (array_id (val w' ".popupdiv .exporttype") t) allcolumns includecomments w'
