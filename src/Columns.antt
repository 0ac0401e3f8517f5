-- ===== src/Columns.antt =====
-- The columns of the table: how `initDataTables` reads them from the head of the page, the cells of
-- tags and buttons, and how their order is kept (`pad` and `updateColonnesOptionsAjax` of scripts.js,
-- the rest in datatables.js, both in web/src/main/webapp/view/static/js).
pub mod Padding
pub mod Order
mod Tests
use package.text.Mathlib.Text.{◌==◌ as str_eq}
use cidemis.Base.{
  ℕ, zero, suc, ◌+◌, ◌/◌, ◌%◌, String, Bool, true, false, not, ◌||◌, Option, none, some, List, [],
  ◌∷◌, ◌++◌, Text, codes, same, length, ltb, ◌==◌, if◌then◌else◌,
}
use cidemis.Browser.{is, Reply, success, failure, Body}

-- A column as the table is told of it; `none` is `undefined`.
pub record Column : Type 0 where
  orderable : Option Bool
  pub kind : Option String
  pub search : Option String
  pub name : Option String
  pub visible : Option Bool
  pub data_ : Option String
  pub width : Option String

-- `col.type`, by the names of the comparators.
abbrev pub kind_of : Option String → Option String
kind_of col_name =
    if is col_name "col_taggue"
    then some "taggue"
    else if is col_name "col_titre"
    then some "titre"
    else if is col_name "col_publication_date_debut"
    then some "publication-date"
    else if is col_name "col_date" || is col_name "col_date_modif"
    then some "french-date"
    else none

-- The column of a cell of the table's head, by the attributes of the cell.
unfoldable pub column_of : (String → Option String) → Column
column_of attr =
    let col_name = attr "col_name" in
    if is col_name "col_action"
    then record {
      orderable = some false;
      kind = none;
      search = none;
      name = some "col_action";
      visible = none;
      data_ = col_name;
      width = none;
    }
    else record {
      orderable = none;
      kind = kind_of col_name;
      search = attr "type_input";
      name = col_name;
      visible = some (is (attr "visible") "true");
      data_ = col_name;
      width = attr "col_width";
    }

-- A tag of a request.
pub record Taggue : Type 0 where
  pub libelle : Text
  pub couleur : Text

-- What a row says of its request.
pub record Row : Type 0 where
  -- `none` is `null`
  pub id_demande : Option Text
  pub taggues : List Taggue
  pub commentaires_nb : ℕ
  pub pieces_justificatives_nb : ℕ
  pub can_delete : Bool
  pub can_archive : Bool

-- `tab_couleur`, the latest entry first.
abbrev pub Colours : Type 0
Colours = List (Text × Text)

unfoldable pub tag_items : List Taggue → Text
tag_items [] = []
tag_items (t ∷ ts) = codes "<li>" ++ (t.libelle ++ (codes "</li>" ++ tag_items ts))

-- `tab_couleur` is an array: `__proto__` is no key of it, and `length` sets its length, or is an
-- error; an error is apart here.
abbrev pub is_special : Text → Bool
is_special libelle = same libelle (codes "length") || same libelle (codes "__proto__")

abbrev pub put_colour : Taggue → Colours → Colours
put_colour t colours = if is_special t.libelle then colours else (t.libelle, t.couleur) ∷ colours

unfoldable pub note_colours : List Taggue → Colours → Colours
note_colours [] colours = colours
note_colours (t ∷ ts) colours = note_colours ts (put_colour t colours)

-- `tab_couleur[libelle]`
unfoldable pub colour_of : Text → Colours → Option Text
colour_of libelle [] = none
colour_of libelle ((l, c) ∷ colours) = if same l libelle then some c else colour_of libelle colours

-- The cell of the tags, with the colours that it notes.
abbrev pub render_some : Option Text → Row → Colours → Text × Colours
render_some none data_ colours = ([], colours)
render_some (some _) data_ colours = (
  codes "<ul class='readOnlyTags'>" ++ (tag_items data_.taggues ++ codes "</ul>"),
  note_colours data_.taggues colours,
)

unfoldable pub render_taggues : Row → Colours → Text × Colours
render_taggues data_ colours = render_some data_.id_demande data_ colours

abbrev text_or_null : Option Text → Text
text_or_null none = codes "null"
text_or_null (some t) = t

-- One of the buttons that a row may have.
abbrev row_button : String → String → Text → Text
row_button class title id =
    codes "<a class='"
    ++ (codes class
        ++ (codes "' href='#' demandenum='"
            ++ (id ++ (codes "' title='" ++ (codes title ++ codes "'></a>")))))

-- The cell of the buttons.
unfoldable pub render_action : Row → Text
render_action data_ =
    let id = text_or_null data_.id_demande in
    codes "<a class='afficherdemande' href='afficher-demande?id="
    ++ (id
        ++ (codes "' title='Modifier la demande'></a>"
            ++ ((if data_.commentaires_nb == 0
                  then []
                  else row_button "voircommentaires" "Voir les commentaires" id)
                ++ ((if data_.pieces_justificatives_nb == 0
                      then []
                      else row_button "voirpiecejointe" "Voir les pièces jointes" id)
                    ++ ((if data_.can_delete
                          then row_button "supprimerdemande" "Supprimer la demande" id
                          else [])
                        ++ (if data_.can_archive
                            then row_button "archiverdemande" "Archiver la demande" id
                            else []))))))

-- `pad`, whose calls of itself are counted down: `pad_within n` makes at most n of them.
unfoldable pub pad_within : ℕ → Text → ℕ → Text
pad_within zero str max = str
pad_within (suc n) str max =
    let rest = pad_within n (b'0' ∷ str) max in if ltb (length str) max then rest else str

unfoldable pub pad : Text → ℕ → Text
pad str max = pad_within max str max

-- `toString()` of a whole number.
unfoldable pub digits : ℕ → ℕ → Text → Text
digits zero n acc = acc
digits (suc fuel) n acc =
    let more = digits fuel (n / 10) ((b'0' + n % 10) ∷ acc) in
    if ltb n 10 then (b'0' + n) ∷ acc else more

unfoldable pub decimal : ℕ → Text
decimal n = digits (suc n) n []

-- A column as the table shows it now.
pub record Shown : Type 0 where
  pub name : Text
  pub b_visible : Bool

-- `colonnes[name] = value`
unfoldable pub set_property : Text → Text → List (Text × Text) → List (Text × Text)
set_property name value [] = (name, value) ∷ []
set_property name value ((n, v) ∷ ps) =
    let rest = set_property name value ps in
    if same n name then (name, value) ∷ ps else (n, v) ∷ rest

-- `width` is the width in pixels that the browser gives to the head of a column.
module _ (width : Text → Text) where
  unfoldable pub column_option : ℕ → Shown → Text
  column_option i c =
      pad (decimal i) 2
      ++ (codes ","
          ++ ((if c.b_visible then codes "visible" else codes "hide")
              ++ (codes "," ++ (if c.b_visible then width c.name else codes "0"))))

  -- The loop of `updateColonnesOptions`, from its column `i` on.
  unfoldable pub colonnes : ℕ → List Shown → List (Text × Text) → List (Text × Text)
  colonnes i [] ps = ps
  colonnes i (c ∷ cs) ps = colonnes (suc i) cs (set_property c.name (column_option i c) ps)

  -- What `updateColonnesOptions` gives to `jQuery.param`, whose text is posted to `optionscolonnes`.
  unfoldable pub update_colonnes_options : List Shown → List (Text × Text)
  update_colonnes_options cs = colonnes 0 cs []
