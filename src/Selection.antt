-- ===== src/Selection.antt =====
-- The rows of the table: `toggleClass` and `switchClass`, which scripts.js gives to jQuery, and
-- `selectDemande`, `deselectAll` and `openDemande`.
pub mod Clicks
mod Tests
use cidemis.Base.{
  ℕ, zero, suc, String, Bool, true, false, Option, none, some, List, [], ◌∷◌, map, Text,
  if◌then◌else◌,
}
use cidemis.Browser.{World, Element, member, add_class, remove_class, go_to}
use cidemis.Service.{written}

unfoldable pub switch_class : String → String → Element → Element
switch_class removed added e = add_class added (remove_class removed e)

unfoldable pub toggle_class : String → Element → Element
toggle_class c e = if member c e.classes then remove_class c e else add_class c e

-- A row: its element, whether it is on the page of the table that is shown (the library takes the
-- others out of the document), the number of its request, and the address of its `.afficherdemande`.
pub record TableRow : Type 0 where
  pub tr : Element
  pub shown : Bool
  pub number : Text
  pub href : Option String

unfoldable pub toggle_row : TableRow → TableRow
unfolding toggle_class
toggle_row r = record r { tr = toggle_class "selected" r.tr }

-- A click on the row at a place.
unfoldable pub select_demande : ℕ → List TableRow → List TableRow
unfolding toggle_row
select_demande i [] = []
select_demande zero (r ∷ rs) = toggle_row r ∷ rs
select_demande (suc i) (r ∷ rs) = r ∷ select_demande i rs

unfoldable pub deselect_row : TableRow → TableRow
deselect_row r = if r.shown then record r { tr = remove_class "selected" r.tr } else r

-- The selector finds the rows that are shown.
unfoldable pub deselect_all : List TableRow → List TableRow
unfolding deselect_row
deselect_all = map deselect_row

-- A double click on a row.
unfoldable pub open_demande : TableRow → World → World
open_demande r w = go_to (written r.href) w

abbrev pub is_selected : TableRow → Bool
is_selected r = member "selected" r.tr.classes

-- The numbers in the rows with the class `selected`, which an export takes.
unfoldable pub selected_numbers : List TableRow → List Text
selected_numbers [] = []
selected_numbers (r ∷ rs) =
    let rest = selected_numbers rs in if is_selected r then r.number ∷ rest else rest
