-- ===== src/Setup.antt =====
-- What `initDataTables` (datatables.js) hands to the DataTables library: the texts, the paging, the
-- definitions of the two rendered columns, the order of the columns and the search of the library.
pub mod Places
mod Tests
use package.text.Mathlib.Text.{◌==◌ as str_eq}
use cidemis.Base.{
  ℕ, String, Bool, true, false, Option, none, some, List, [], ◌∷◌, ◌++◌, Text, if◌then◌else◌,
}
use cidemis.Browser.{World, val, is, size, on, show}
use cidemis.Columns.{Column, column_of, Row, Colours, render_taggues, render_action}
use cidemis.Diacritics.{remove_diacritics}
use cidemis.Service
use cidemis.Controls.{Control, state_save_params, state_load_params}

-- The local storage of the browser, where the library keeps the state of the table.
abbrev pub Storage : Type 0
Storage = List (String × String)

unfoldable pub remove_item : String → Storage → Storage
remove_item key [] = []
remove_item key ((k, v) ∷ ps) =
    let rest = remove_item key ps in if str_eq k key then rest else (k, v) ∷ rest

abbrev storage_key : String → String
storage_key pathname = Service.◌++◌ "DataTables_liste_demande_" pathname

-- A user who has just logged in starts without the state of the table.
unfoldable pub forget_state : String → World → Storage → Storage
unfolding remove_item
forget_state pathname w s =
    if is (val w "#login") "true" then remove_item (storage_key pathname) s else s

-- The cells of the head, by their attributes.
unfoldable pub colonnes_of : List (String → Option String) → List Column
unfolding column_of
colonnes_of [] = []
colonnes_of (th ∷ ths) = column_of th ∷ colonnes_of ths

-- The columns 17 and 18 stand behind those that a user has ordered.
unfoldable pub ai_order : List ℕ → List ℕ
ai_order positions = positions ++ 17 ∷ 18 ∷ []

pub record Language : Type 0 where
  processing : String
  length_menu : String
  zero_records : String
  empty_table : String
  pub info : String
  info_empty : String
  info_filtered : String
  info_post_fix : String
  pub search : String
  search_placeholder : String
  pub url : String
  pub first : String
  previous : String
  next : String
  pub last : String

abbrev language : Language
language = record {
  processing = "Chargement...";
  length_menu = "_MENU_";
  zero_records = "Aucun résultat trouvé";
  empty_table = "Aucune demande à afficher";
  info = "Affiche _START_ à _END_ sur un total de _TOTAL_ demandes";
  info_empty = "Affiche 0 demandes sur un total de 0 demandes";
  info_filtered = "(filtrées sur un total de _MAX_ demandes)";
  info_post_fix = "";
  search = "";
  search_placeholder = "Chercher";
  url = "";
  first = "Première";
  previous = "Précédente";
  next = "Suivante";
  last = "Dernière";
}

-- A length of a page: so many requests, or all of them (-1).
pub data PageLength : Type 0 where
  requests : ℕ → PageLength
  all_requests : PageLength

-- What is shown of a column by a function of its row.
pub record ColumnDef : Type 0 where
  pub name : String
  target : ℕ
  render : Row → Colours → Text × Colours

unfoldable pub column_defs : List ColumnDef
unfolding render_taggues render_action
column_defs =
    record { name = "col_taggue"; target = 12; render = render_taggues }
    ∷ (record {
      name = "col_action";
      target = 17;
      render = λ data_ colours. (render_action data_, colours);
    }
        ∷ [])

-- `fnInitComplete`: the sign of loading goes, and the table is shown.
unfoldable pub init_complete : World → World
init_complete w =
    on "#liste_demande" show
      (record w { elements = λ s. if str_eq s "#loading" then [] else w.elements s })

pub record TableOptions : Type 0 where
  pub ajax : Text
  defer_render : Bool
  order_cells_top : Bool
  order : List (ℕ × String)
  page_length : ℕ
  length_menu : List (PageLength × String)
  state_save : Bool
  paging_type : String
  dom : String
  pub columns : List Column
  definitions : List ColumnDef
  case_insensitive : Bool
  texts : Language
  pub positions : List ℕ
  fn_init_complete : World → World
  fn_state_save_params : List Control → List (String × String) → List (String × String)
  fn_state_load_params : List String → List Control → List Control

-- The list of lengths and the list of their texts, side by side.
abbrev lengths : List (PageLength × String)
lengths =
    (requests 10, "Afficher 10 demandes")
    ∷ ((requests 25, "Afficher 25 demandes")
        ∷ ((requests 50, "Afficher 50 demandes") ∷ ((all_requests, "Toutes les demandes") ∷ [])))

unfoldable pub init_val_data_table : Text → List (String → Option String) → List ℕ → TableOptions
unfolding colonnes_of ai_order column_defs init_complete state_save_params state_load_params
init_val_data_table appel_ajax ths positions = record {
  ajax = appel_ajax;
  defer_render = true;
  order_cells_top = true;
  order = (0, "desc") ∷ [];
  page_length = 25;
  length_menu = lengths;
  state_save = true;
  paging_type = "full_numbers";
  dom = "R<\"filtres\"<\"toolbar\">lf><\"clear\"><pi>rt<\"clear\">";
  columns = colonnes_of ths;
  definitions = column_defs;
  case_insensitive = true;
  texts = language;
  positions = ai_order positions;
  fn_init_complete = init_complete;
  fn_state_save_params = state_save_params;
  fn_state_load_params = state_load_params;
}

-- `ofnSearch`: how the library reads a cell of titles or tags when it searches.
unfoldable pub searched_cell : String → Text → Text
searched_cell kind data_ =
    if str_eq kind "titre"
    then remove_diacritics data_
    else if str_eq kind "taggue"
    then remove_diacritics data_
    else data_
