-- ===== src/Opening.antt =====
-- The opening of the page: `initDataTables` (datatables.js), which makes the table, its checkboxes
-- and its comparators out of the parts in the other files.
pub mod Checkboxes
mod Tests
use Prim.Native.String as Str
use package.text.Mathlib.Text.{◌==◌ as str_eq}
use cidemis.Base.{
  ℕ, String, Bool, true, false, not, Option, none, some, List, [], ◌∷◌, ◌++◌, Text, codes, ◌==◌,
  if◌then◌else◌,
}
use cidemis.Base.Int.{ℤ}
use cidemis.Browser.{World, Element, size, on, set_html, add_class}
use cidemis.Diacritics.{remove_diacritics}
use cidemis.Sorting.{
  titre_asc, titre_desc, taggue_asc, taggue_desc, publication_date_asc, publication_date_desc,
  french_date_asc, french_date_desc,
}
use cidemis.Filters.{
  Listing, Search, done_cookie, archived_cookie, appel_ajax, init_flags, checked_attribute,
}
use cidemis.Setup.{Storage, TableOptions, forget_state, init_val_data_table, searched_cell}
use cidemis.Controls.{filtrertermine, filtrerarchive}

-- A comparator answers with a Boolean or with a number.
pub data Comparator : Type 0 where
  boolean : (Text → Text → Bool) → Comparator
  number : (Text → Text → ℤ) → Comparator

-- `oSort`, where `lower` is the language's `toLowerCase`.
unfoldable pub o_sort : (Text → Text) → List (String × Comparator)
o_sort lower =
    ("titre-asc", boolean (titre_asc lower))
    ∷ ("titre-desc", boolean (titre_desc lower))
    ∷ ("taggue-asc", boolean (taggue_asc lower))
    ∷ ("taggue-desc", boolean (taggue_desc lower))
    ∷ ("publication-date-asc", boolean publication_date_asc)
    ∷ ("publication-date-desc", boolean publication_date_desc)
    ∷ ("french-date-asc", number french_date_asc)
    ∷ ("french-date-desc", number french_date_desc)
    ∷ []

-- The page and its cookies, the local storage, the options that the table was made with, the
-- searches of it, the latest first, and the comparators.
pub record Opened : Type 0 where
  pub listing : Listing
  pub storage : Storage
  pub table : Option TableOptions
  pub searches : List Search
  pub sorts : List (String × Comparator)
  -- `ofnSearch`, which reads a cell of a type for a search
  pub searched : String → Text → Text
  pub table_already_loaded_once : Bool

infixl 65 ◌+++◌
abbrev ◌+++◌ : String → String → String
◌+++◌ = Str.◌++◌

abbrev done_html : String → String
done_html checked =
    "<span style=\"display: block;margin-bottom: 2em;\"></span><span id=\"divaffichertermine\" style=\"margin-left: 12px\">"
    +++ "<input " +++ checked
    +++ " type=\"checkbox\" name=\"affichertermine\" id=\"affichertermine\" style=\"position: relative; vertical-align: middle\"/>"
    +++ "<label style=\"position: relative;display: inline-block;vertical-align: middle;\" for=\"affichertermine\" id=\"loaderTermine\">Afficher les demandes terminées</label>"
    +++ "</span>"

abbrev archived_html : String → String
archived_html checked =
    "<span id=\"divafficherarchive\">" +++ "<input " +++ checked
    +++ " type=\"checkbox\" name=\"afficherarchive\" id=\"afficherarchive\" style=\"position: relative; vertical-align: middle\" />"
    +++ "<label style=\"position: relative;display: inline-block;vertical-align: middle;\" for=\"afficherarchive\" id=\"loaderArchive\">Afficher les demandes archivées</label>"
    +++ "</span>"

-- An element that is written in HTML.
abbrev pub element : Option Bool → String → Element
element checked html = record {
  value = none;
  attrs = λ name. none;
  classes = [];
  html = html;
  shown = true;
  disabled = false;
  checked = checked;
  style = λ name. none;
}

-- A new element is found by a selector that found nothing.
abbrev pub place : String → Element → World → World
place sel e w = record w { elements = λ s. if str_eq s sel then e ∷ [] else w.elements s }

abbrev append_html : String → Element → Element
append_html html e = record e { html = e.html +++ html }

-- The selectors of the parts of a checkbox, and the text of its label.
pub record Checkbox : Type 0 where
  pub span : String
  pub input : String
  pub label : String
  pub text : String

abbrev done_box : Checkbox
done_box = record {
  span = "#divaffichertermine";
  input = "#affichertermine";
  label = "#loaderTermine";
  text = "Afficher les demandes terminées";
}

abbrev archived_box : Checkbox
archived_box = record {
  span = "#divafficherarchive";
  input = "#afficherarchive";
  label = "#loaderArchive";
  text = "Afficher les demandes archivées";
}

-- `$('.filtres').append(…)`: the HTML, and the elements that it makes.
unfoldable pub append_checkbox : Checkbox → String → String → World → World
append_checkbox box checked html w =
    if size w ".filtres" == 0
    then w
    else place box.span (element none "") (
        place box.input (element (some (not (str_eq checked ""))) "")
          (place box.label (element none box.text) (on ".filtres" (append_html html) w)))

abbrev mark_search : World → World
mark_search = on "#liste_demande_filter [type=\"search\"]" (add_class "search")

-- `DataTable(options)`, of the library, makes the surroundings of the table.
module _ (data_table : TableOptions → World → World) where
  -- The table is made, and loads itself from the address in its options.
  unfoldable pub open_table : List (String → Option String) → List ℕ → Opened → Opened
  open_table ths positions o =
      let options = init_val_data_table (appel_ajax o.listing) ths positions in
      record o {
        table = some options;
        searched = searched_cell;
        listing = record o.listing {
          world =
              on ".toolbar"
                (set_html "<a title=\"Tout déselectionner\" href=\"#\" class=\"deselect_all\"></a>")
                (data_table options o.listing.world);
          loads = appel_ajax o.listing ∷ o.listing.loads;
        };
      }

-- The checkbox of the finished requests.
unfoldable pub show_done : Opened → Opened
show_done o =
    let checked = checked_attribute "#show_demandes_done" done_cookie o.listing in
    let w = append_checkbox done_box checked (done_html checked) o.listing.world in
    record o {
      searches = filtrertermine w ∷ o.searches;
      listing = record o.listing { world = mark_search w };
    }

-- The checkbox of the archived requests.
unfoldable pub show_archived : Opened → Opened
show_archived o =
    let checked = checked_attribute "#show_demandes_archived" archived_cookie o.listing in
    let w = append_checkbox archived_box checked (archived_html checked) o.listing.world in
    record o {
      searches = filtrerarchive w ∷ o.searches;
      listing = record o.listing { world = mark_search w };
    }

module _ (data_table : TableOptions → World → World) (to_utc_string : ℕ → Text) (now : ℕ) where
  -- What is done on a page with the list of requests.
  unfoldable pub open_list : List (String → Option String) → List ℕ → Opened → Opened
  open_list ths positions o = show_archived (
      show_done (
        open_table data_table ths positions
          (record o { listing = init_flags to_utc_string now o.listing })))

  -- `lower` is the language's `toLowerCase`, `pathname` is that of the page, `ths` are the cells of
  -- the head by their attributes, and `positions` is what the field `#positions` evaluates to.
  unfoldable pub init_data_tables :
      (Text → Text) → String → List (String → Option String) → List ℕ → Opened → Opened
  init_data_tables lower pathname ths positions o =
      let start = record o { storage = forget_state pathname o.listing.world o.storage } in
      let opened =
        if size o.listing.world "#demandes_list" == 0
        then start
        else open_list ths positions start in
      record opened { sorts = o_sort lower; table_already_loaded_once = true }
