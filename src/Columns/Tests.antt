-- ===== src/Columns/Tests.antt =====
-- Columns and cells at concrete tables.
use package.text.Mathlib.Text.{◌==◌ as str_eq}
use cidemis.Base.{
  String, ◌≡◌, refl, none, some, true, false, Option, List, [], ◌∷◌, Text, codes, same,
  if◌then◌else◌,
}
use cidemis.Columns.{
  column_of, Row, render_taggues, render_action, tag_items, note_colours, colour_of, pad_within,
  pad, digits, decimal, Shown, colonnes, set_property, column_option, update_colonnes_options,
}
use cidemis.Columns.Order.{DistinctNames, property}

abbrev title_head : String → Option String
title_head name =
    if str_eq name "col_name"
    then some "col_titre"
    else if str_eq name "visible"
    then some "true"
    else none

title_column : (column_of title_head).kind ≡ some "titre"
unfolding column_of
title_column = refl

title_column_shown : (column_of title_head).visible ≡ some true
unfolding column_of
title_column_shown = refl

abbrev request : Row
request = record {
  id_demande = some (codes "7");
  taggues = record { libelle = codes "urgent"; couleur = codes "ff0000" } ∷ [];
  commentaires_nb = 0;
  pieces_justificatives_nb = 0;
  can_delete = true;
  can_archive = false;
}

tags_cell : (render_taggues request []).0 ≡ codes "<ul class='readOnlyTags'><li>urgent</li></ul>"
unfolding render_taggues tag_items codes
tags_cell = refl

tag_colour : colour_of (codes "urgent") (render_taggues request []).1 ≡ some (codes "ff0000")
unfolding render_taggues note_colours colour_of codes same
tag_colour = refl

buttons_cell :
    render_action request
    ≡ codes
        "<a class='afficherdemande' href='afficher-demande?id=7' title='Modifier la demande'></a><a class='supprimerdemande' href='#' demandenum='7' title='Supprimer la demande'></a>"
unfolding render_action codes
buttons_cell = refl

padded : pad (decimal 7) 2 ≡ codes "07"
unfolding pad pad_within decimal digits codes
padded = refl

abbrev seven : Text
seven = b'7' ∷ []

abbrev pixels : Text → Text
pixels name = b'8' ∷ b'0' ∷ []

abbrev titles : Shown
titles = record { name = b't' ∷ []; b_visible = true }

abbrev table : List Shown
table = record { name = b'n' ∷ []; b_visible = false } ∷ (titles ∷ [])

table-DistinctNames : DistinctNames table
unfolding same
table-DistinctNames = ((refl, tt), (tt, tt))

titles_option :
    property (b't' ∷ []) (update_colonnes_options pixels table) ≡ some (codes "01,visible,80")
unfolding update_colonnes_options colonnes set_property column_option pad pad_within decimal digits
    codes same
titles_option = refl
