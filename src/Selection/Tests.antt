-- ===== src/Selection/Tests.antt =====
-- Clicks on concrete rows.
use cidemis.Base.{true, ◌≡◌, refl, none, some, [], ◌∷◌, List, codes}
use cidemis.Browser.{add_class, remove_class}
use cidemis.Samples.{field}
use cidemis.Selection.{
  TableRow, switch_class, toggle_class, toggle_row, select_demande, selected_numbers,
}
use cidemis.Selection.Clicks.{clicks}

abbrev rows : List TableRow
rows =
    record { tr = field ""; shown = true; number = codes "7"; href = some "afficher-demande?id=7" }
    ∷ (record {
      tr = record (field "") { classes = "odd" ∷ "selected" ∷ [] };
      number = codes "8";
      shown = true;
      href = none;
    }
        ∷ [])

selected : selected_numbers (clicks (0 ∷ 1 ∷ 0 ∷ 0 ∷ []) rows) ≡ codes "7" ∷ []
unfolding selected_numbers select_demande toggle_row toggle_class add_class remove_class codes
selected = refl

switched :
    (switch_class "odd" "even" (record (field "") { classes = "odd" ∷ [] })).classes ≡ "even" ∷ []
unfolding switch_class add_class remove_class
switched = refl
