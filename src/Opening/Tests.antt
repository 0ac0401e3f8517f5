-- ===== src/Opening/Tests.antt =====
-- The page of the list of requests is opened.
use cidemis.Base.{
  ℕ, ◌≡◌, refl, false, none, some, [], ◌∷◌, Text, codes, split, split_from, starts_with, ◌==◌,
  if◌then◌else◌,
}
use package.text.Mathlib.Text.{◌==◌ as str_eq}
use cidemis.Browser.{World, val, size, prop_checked, is}
use cidemis.Samples.{field, page}
use cidemis.Cookies.{get_cookie_value, read_parts}
use cidemis.Cookies.Jar.{cookie_text}
use cidemis.Filters.{done_cookie, archived_cookie, flag_text, flag, list_url}
use cidemis.Setup.{TableOptions}
use cidemis.Opening.{Opened, open_list}
use cidemis.Opening.Checkboxes.{any_state, open_list-agrees}

abbrev print_time : ℕ → Text
print_time n = b'T' ∷ []

-- The library makes `.filtres` and `.toolbar`.
abbrev make_table : TableOptions → World → World
make_table o w = record w {
  elements = λ s.
      if str_eq s ".filtres"
      then field "" ∷ []
      else if str_eq s ".toolbar"
      then field "" ∷ []
      else w.elements s;
}

abbrev closed : Opened
closed = record {
  listing = record {
    world = page (("#demandes_list", field "") ∷ ("#show_demandes_done", field "") ∷ []);
    jar = [];
    checkbox_already_checked = false;
    loads = [];
  };
  storage = [];
  table = none;
  searches = [];
  sorts = [];
  searched = λ kind data_. data_;
  table_already_loaded_once = false;
}

closed_done : flag done_cookie closed.listing ≡ none
unfolding flag cookie_text get_cookie_value done_cookie codes split split_from starts_with
    read_parts
closed_done = refl

closed_archived : flag archived_cookie closed.listing ≡ none
unfolding flag cookie_text get_cookie_value archived_cookie codes split split_from starts_with
    read_parts
closed_archived = refl

makes_filters : (o : TableOptions) (w : World) → (size (make_table o w) ".filtres" == 0) ≡ false
unfolding size
makes_filters o w = refl

keeps_done :
    (o : TableOptions) (w : World)
    → val (make_table o w) "#show_demandes_done" ≡ val w "#show_demandes_done"
unfolding val
keeps_done o w = refl

keeps_archived :
    (o : TableOptions) (w : World)
    → val (make_table o w) "#show_demandes_archived" ≡ val w "#show_demandes_archived"
unfolding val
keeps_archived o w = refl

field_unchecked : is (val closed.listing.world "#show_demandes_done") "true" ≡ false
unfolding val
field_unchecked = refl

field_missing : is (val closed.listing.world "#show_demandes_archived") "true" ≡ false
unfolding val
field_missing = refl

open_list-agrees_example :
    let r = open_list make_table print_time 0 [] [] closed in
    (prop_checked r.listing.world "#affichertermine" ≡ some false)
    × (prop_checked r.listing.world "#afficherarchive" ≡ some false)
    × (r.listing.loads ≡ list_url (flag_text false) (flag_text false) ∷ [])
    × (r.searches ≡ any_state ∷ any_state ∷ [])
open_list-agrees_example =
    open_list-agrees make_table print_time 0 makes_filters keeps_done keeps_archived [] [] none none
      closed (tt, tt) closed_done closed_archived field_unchecked field_missing
