-- ===== src/Server/Options/Tests.antt =====
-- The options of a table with two columns.
use cidemis.Base.{◌≡◌, refl, true, false, some, List, [], ◌∷◌, Text, same}
use cidemis.Columns.{Shown, column_option, update_colonnes_options}
use cidemis.Columns.Order.{DistinctNames, property}
use cidemis.Server.Workflow.{member_text}
use cidemis.Server.Listing.Page.{trim_spaces, get_parameter}
use cidemis.Server.Options.{options_colonnes, options_colonnes-update}

abbrev pixels : Text → Text
pixels name = b'8' ∷ b'0' ∷ []

abbrev titles : Shown
titles = record { name = b't' ∷ []; b_visible = true }

abbrev table : List Shown
table = record { name = b'n' ∷ []; b_visible = false } ∷ titles ∷ []

abbrev saved : List (Text × Text)
saved = (b't' ∷ [], b'0' ∷ []) ∷ []

table-DistinctNames : DistinctNames table
unfolding same
table-DistinctNames = ((refl, tt), (tt, tt))

listed_column : member_text (b't' ∷ []) ((b'n' ∷ []) ∷ (b't' ∷ []) ∷ []) ≡ true
unfolding same
listed_column = refl

saved_column : property (b't' ∷ []) saved ≡ some (b'0' ∷ [])
unfolding same
saved_column = refl

options_colonnes-update_example :
    property (b't' ∷ []) (
      options_colonnes
        (λ name. get_parameter (property name (update_colonnes_options pixels table)))
        ((b'n' ∷ []) ∷ (b't' ∷ []) ∷ [])
        saved)
    ≡ some (trim_spaces (column_option pixels 1 titles))
options_colonnes-update_example =
    options_colonnes-update pixels table 1 titles ((b'n' ∷ []) ∷ (b't' ∷ []) ∷ []) saved (b'0' ∷ [])
      table-DistinctNames refl listed_column saved_column
