-- ===== src/Filters.antt =====
-- What the table of requests shows: the two checkboxes, whose state is kept in cookies, the requests
-- that load the table, and the search of a column (web/src/main/webapp/view/static/js/datatables.js).
pub mod Toggles
pub mod Events
pub mod Patterns
mod Tests
use package.text.Mathlib.Text.{◌==◌ as str_eq}
use cidemis.Base.{
  ℕ, String, Bool, true, false, ◌||◌, Option, none, some, List, [], ◌∷◌, ◌++◌, Text, codes, same,
  ◌==◌, if◌then◌else◌,
}
use cidemis.Browser.{World, Element, val, is, on_id, set_html, set_style, set_disabled}
use cidemis.Cookies.{get_cookie_value, set_cookie}
use cidemis.Cookies.Jar.{Jar, assign, cookie_text}
use cidemis.Diacritics.{remove_diacritics}
use cidemis.Service

-- The page, its cookies, `checkbox_already_checked`, and the addresses that the table was loaded
-- from, the latest first.
pub record Listing : Type 0 where
  pub world : World
  pub jar : Jar
  pub checkbox_already_checked : Bool
  pub loads : List Text

unfoldable pub done_cookie : Text
unfolding codes
done_cookie = codes "jsSessionCookieKeepDisplayedDemandesDone"

unfoldable pub archived_cookie : Text
unfolding codes
archived_cookie = codes "jsSessionCookieKeepDisplayedDemandesArchived"

unfoldable pub flag_text : Bool → Text
unfolding codes
flag_text true = codes "true"
flag_text false = codes "false"

unfoldable pub flag : Text → Listing → Option Text
flag name l = get_cookie_value (cookie_text l.jar) name

abbrev pub holds : Option Text → Text → Bool
holds none t = false
holds (some s) t = same s t

abbrev flag_or_undefined : Option Text → Text
flag_or_undefined none = codes "undefined"
flag_or_undefined (some s) = s

abbrev pub list_url : Text → Text → Text
list_url achieved archived =
    codes "liste-demandes-ajax?achieved=" ++ (achieved ++ (codes "&archived=" ++ archived))

-- The address that the flags ask for.
unfoldable pub appel_ajax : Listing → Text
appel_ajax l =
    list_url (flag_or_undefined (flag done_cookie l)) (flag_or_undefined (flag archived_cookie l))

unfoldable pub afficherdemandeajax : Listing → Listing
afficherdemandeajax l = record l { loads = appel_ajax l ∷ l.loads }

-- The label of a checkbox while the table is loaded, when no checkbox can be used.
abbrev busy : String → String → World → World
busy sel html w = on_id "#afficherarchive" (set_disabled true) (
    on_id "#affichertermine" (set_disabled true)
      (on_id sel (λ e. set_style "color" "red" (set_html html e)) w))

abbrev idle : String → String → World → World
idle sel html w = on_id "#afficherarchive" (set_disabled false) (
    on_id "#affichertermine" (set_disabled false)
      (on_id sel (λ e. set_style "color" "black" (set_html html e)) w))

-- `xhr.dt`: the table has been loaded.
unfoldable pub table_loaded : Listing → Listing
table_loaded l =
    if l.checkbox_already_checked
    then record l {
      world =
          idle "#loaderArchive" "Afficher les demandes archivées</span>"
            (idle "#loaderTermine" "Afficher les demandes terminées</span>" l.world);
    }
    else l

-- `to_utc_string` prints a time, and `now` is the time in milliseconds.
module _ (to_utc_string : ℕ → Text) (now : ℕ) where
  unfoldable pub keep_flag : Text → Bool → Listing → Listing
  keep_flag name b l = record l {
    jar = assign (set_cookie to_utc_string now name (flag_text b) 1) l.jar;
  }

  -- `initDataTables`: a flag that is not set yet is set to false.
  unfoldable pub init_flag : Text → Listing → Listing
  init_flag name l = elim (flag name l) [ none ↦ keep_flag name false l | some _ ↦ l ]

  unfoldable pub init_flags : Listing → Listing
  init_flags l = init_flag archived_cookie (init_flag done_cookie l)

  -- The other value is put into the cookie; a value that is neither is left.
  unfoldable pub flip_flag : Text → Listing → Listing
  flip_flag name l =
      if holds (flag name l) (flag_text true)
      then keep_flag name false l
      else if holds (flag name l) (flag_text false)
      then keep_flag name true l
      else l

  abbrev pub checked : Listing → Listing
  checked l = record l { checkbox_already_checked = true }

  -- The two handlers of a change of `#divaffichertermine`.
  unfoldable pub change_done : Listing → Listing
  change_done l =
      let l' = afficherdemandeajax (flip_flag done_cookie (checked l)) in
      record l' {
        world =
            busy "#loaderTermine"
              "<span class=\"blink\">Afficher les demandes terminées &#128472;</span>" l'.world;
      }

  -- The two handlers of a change of `#divafficherarchive`.
  unfoldable pub change_archived : Listing → Listing
  change_archived l =
      let l' = afficherdemandeajax (flip_flag archived_cookie (checked l)) in
      record l' {
        world =
            busy "#loaderArchive"
              "<span class=\"blink\">Afficher les demandes archivées &#128472;</span>" l'.world;
      }

-- `checked="checked"`, if the field or the cookie says so.
unfoldable pub checked_attribute : String → Text → Listing → String
checked_attribute sel name l =
    if is (val l.world sel) "true" || holds (flag name l) (flag_text true)
    then "checked=\"checked\" "
    else ""

abbrev pub has_percent : Text → Bool
has_percent [] = false
has_percent (c ∷ s) = c == b'%' || has_percent s

-- `s.replace(/%/, '(.*)')`: the first one.
unfoldable pub replace_percent : Text → Text
replace_percent [] = []
replace_percent (c ∷ s) =
    let rest = replace_percent s in
    if c == b'%' then b'(' ∷ (b'.' ∷ (b'*' ∷ (b')' ∷ s))) else c ∷ rest

abbrev pub ignores_diacritics : Option String → Bool
ignores_diacritics col_name = is col_name "col_titre" || is col_name "col_taggue"

-- What `searchtable` searches the field's column for, and whether it is a regular expression.
unfoldable pub search_value : Option String → Text → Text
search_value col_name value = if ignores_diacritics col_name then remove_diacritics value else value

unfoldable pub search_pattern : Text → Text × Bool
search_pattern value =
    if has_percent value
    then (b'^' ∷ (replace_percent value ++ b'$' ∷ []), true)
    else (value, false)

pub record Search : Type 0 where
  pub column : String
  pub pattern : Text
  pub regex : Bool

abbrev search_of : String → Text × Bool → Search
search_of column (pattern, regex) = record { column = column; pattern = pattern; regex = regex }

abbrev column_name : Option String → String
column_name none = "undefined:name"
column_name (some c) = Service.◌++◌ c ":name"

unfoldable pub searchtable : Option String → Text → Search
searchtable col_name value =
    search_of (column_name col_name) (search_pattern (search_value col_name value))
