-- ===== src/Exports/Tests.antt =====
-- Exports at a concrete table.
use cidemis.Base.{◌≡◌, refl, some, none, List, Text, map, true, false, String, [], ◌∷◌, arith}
use cidemis.Browser.{World, val}
use cidemis.Samples.{field, page}
use cidemis.Exports.{Numbers, Cell, array_id, export_demandes}
use cidemis.Selection.{TableRow, deselect_all, selected_numbers}
use cidemis.Selection.Clicks.{clicks}
use cidemis.Exports.Chosen.{export_demandes-clicks}
use cidemis.Exports.Fields.{export_of, export_demandes-fields}

abbrev table : Numbers
table = record {
  all = (b'1' ∷ []) ∷ ((b'2' ∷ []) ∷ []);
  filtered = (b'2' ∷ []) ∷ [];
  selected = Cell.array [] ∷ [];
}

abbrev popup : String → World
popup choice = page ((".popupdiv .exporttype", field choice) ∷ [])

export_demandes-fields_example :
    ((export_demandes table true false (popup "exportall")).1 ≡ export_of true false table.all)
    × ((export_demandes table true false (popup "exportall")).0.dialogs ≡ [])
unfolding array_id val
export_demandes-fields_example =
    export_demandes-fields table true false (popup "exportall") (omega arith)

-- Two rows that are shown, of which the second one is clicked once and the first one twice, and one
-- on another page that was selected before.
abbrev row : Text → TableRow
row number = record { tr = field ""; shown = true; number = number; href = none }

abbrev other_page : TableRow
other_page = record {
  tr = record (field "") { classes = "selected" ∷ [] };
  shown = false;
  number = b'3' ∷ [];
  href = none;
}

abbrev rows : List TableRow
rows = row (b'1' ∷ []) ∷ row (b'2' ∷ []) ∷ other_page ∷ []

abbrev chosen : Numbers
chosen = record {
  all = [];
  filtered = [];
  selected = map Cell.value (selected_numbers (clicks (0 ∷ 1 ∷ 0 ∷ []) (deselect_all rows)));
}

chosen_type : val (popup "exportselected") ".popupdiv .exporttype" ≡ some "exportselected"
unfolding val
chosen_type = refl

export_demandes-clicks_example :
    (export_demandes chosen false true (popup "exportselected")).1
    ≡ export_of false true ((b'2' ∷ []) ∷ (b'3' ∷ []) ∷ [])
export_demandes-clicks_example =
    export_demandes-clicks (0 ∷ 1 ∷ 0 ∷ []) rows chosen false true (popup "exportselected")
      chosen_type refl (omega arith)
