-- ===== src/Opening/Checkboxes.antt =====
-- What the page shows once it is open.
use cidemis.Base.{
  ℕ, String, ◌≡◌, refl, ap, ◌∙◌, Bool, true, false, Option, none, some, List, [], ◌∷◌, map, length,
  Text, codes, same, ◌==◌,
}
use cidemis.Browser.{World, val, size, is, prop_checked, on}
use cidemis.Cookies.Assign.{IsJar}
use cidemis.Filters.{
  Listing, Search, done_cookie, archived_cookie, flag, flag_text, holds, list_url, appel_ajax,
  keep_flag, init_flag, init_flags, checked_attribute,
}
use cidemis.Filters.Events.{choice_text, or_false, run, run-init_flags}
use cidemis.Controls.{filtrertermine, filtrerarchive}
use cidemis.Setup.{TableOptions, init_val_data_table}
use cidemis.Opening.{Opened, append_checkbox, open_table, show_done, show_archived, open_list}

length-map {ℓ κ} :
    {A : Type ℓ} {B : Type κ} (f : A → B) (xs : List A) → length (map f xs) ≡ length xs
length-map f [] = refl
length-map f (x ∷ xs) = rw (length-map f xs) refl

abbrev attribute : Bool → String
attribute true = "checked=\"checked\" "
attribute false = ""

-- The search for every state.
abbrev pub any_state : Search
any_state = record { column = "col_id_etat:name"; pattern = codes ".*"; regex = true }

abbrev HasFilters : World → Type 0
HasFilters w = (size w ".filtres" == 0) ≡ false

show_done_lem :
    (o : Opened) (b : Bool)
    → HasFilters o.listing.world
    → checked_attribute "#show_demandes_done" done_cookie o.listing ≡ attribute b
    → (prop_checked (show_done o).listing.world "#affichertermine" ≡ some b)
      × ((show_done o).searches ≡ any_state ∷ o.searches)
      × HasFilters (show_done o).listing.world
unfolding show_done append_checkbox size on prop_checked filtrertermine
show_done_lem o true h e = rw (e, h) (refl, refl, simp length-map h)
show_done_lem o false h e = rw (e, h) (refl, refl, simp length-map h)

show_archived_lem :
    (o : Opened) (b : Bool)
    → HasFilters o.listing.world
    → checked_attribute "#show_demandes_archived" archived_cookie o.listing ≡ attribute b
    → (prop_checked (show_archived o).listing.world "#afficherarchive" ≡ some b)
      × ((show_archived o).searches ≡ any_state ∷ o.searches)
      × (prop_checked (show_archived o).listing.world "#affichertermine"
          ≡ prop_checked o.listing.world "#affichertermine")
unfolding show_archived append_checkbox size on prop_checked filtrerarchive
show_archived_lem o true h e = rw (e, h) (refl, refl, refl)
show_archived_lem o false h e = rw (e, h) (refl, refl, refl)

-- What `show_done` leaves of the page for `show_archived`.
show_done-val :
    (o : Opened)
    → HasFilters o.listing.world
    → val (show_done o).listing.world "#show_demandes_archived"
      ≡ val o.listing.world "#show_demandes_archived"
unfolding show_done append_checkbox size on val
show_done-val o h = rw h refl

holds-flag_text : (b : Bool) → holds (some (flag_text b)) (flag_text true) ≡ b
unfolding flag_text codes same
holds-flag_text true = refl
holds-flag_text false = refl

-- A checkbox shows its cookie, where the field does not say that it is checked.
checked_attribute-flag :
    (sel : String) (name : Text) (l : Listing) (b : Bool)
    → is (val l.world sel) "true" ≡ false
    → flag name l ≡ some (flag_text b)
    → checked_attribute sel name l ≡ attribute b
unfolding checked_attribute
checked_attribute-flag sel name l true h e = rw (h, e, holds-flag_text true) refl
checked_attribute-flag sel name l false h e = rw (h, e, holds-flag_text false) refl

address :
    (l : Listing) (a b : Bool)
    → flag done_cookie l ≡ some (flag_text a)
    → flag archived_cookie l ≡ some (flag_text b)
    → appel_ajax l ≡ list_url (flag_text a) (flag_text b)
unfolding appel_ajax
address l a b h k = rw (h, k) refl

init_flag-world :
    (to_utc_string : ℕ → Text) (now : ℕ) (name : Text) (v : Option Text) (l : Listing)
    → flag name l ≡ v
    → (init_flag to_utc_string now name l).world ≡ l.world
unfolding init_flag keep_flag
init_flag-world to_utc_string now name none l e = rw (e, init_flag) refl
init_flag-world to_utc_string now name (some v) l e = rw (e, init_flag) refl

init_flag-loads :
    (to_utc_string : ℕ → Text) (now : ℕ) (name : Text) (v : Option Text) (l : Listing)
    → flag name l ≡ v
    → (init_flag to_utc_string now name l).loads ≡ l.loads
unfolding init_flag keep_flag
init_flag-loads to_utc_string now name none l e = rw (e, init_flag) refl
init_flag-loads to_utc_string now name (some v) l e = rw (e, init_flag) refl

init_flags-world :
    (to_utc_string : ℕ → Text) (now : ℕ) (l : Listing)
    → ((init_flags to_utc_string now l).world ≡ l.world)
      × ((init_flags to_utc_string now l).loads ≡ l.loads)
unfolding init_flags
init_flags-world to_utc_string now l =
    let k = init_flag to_utc_string now done_cookie l in
    (
      init_flag-world to_utc_string now archived_cookie (flag archived_cookie k) k refl
          ∙ init_flag-world to_utc_string now done_cookie (flag done_cookie l) l refl,
      init_flag-loads to_utc_string now archived_cookie (flag archived_cookie k) k refl
          ∙ init_flag-loads to_utc_string now done_cookie (flag done_cookie l) l refl,
    )

-- `data_table` is what the library makes of the page: by the option `dom`, an element `.filtres`; the
-- values of the two fields stay.
module _ (data_table : TableOptions → World → World) (to_utc_string : ℕ → Text) (now : ℕ)
    (makes_filters : (o : TableOptions) (w : World) → HasFilters (data_table o w))
    (keeps_done : (o : TableOptions) (w : World)
      → val (data_table o w) "#show_demandes_done" ≡ val w "#show_demandes_done")
    (keeps_archived : (o : TableOptions) (w : World)
      → val (data_table o w) "#show_demandes_archived" ≡ val w "#show_demandes_archived") where
  -- The page between the making of the table and the checkboxes.
  abbrev made : List (String → Option String) → List ℕ → Opened → Opened
  made ths positions o =
      open_table data_table ths positions
        (record o { listing = init_flags to_utc_string now o.listing })

  made_lem :
      (ths : List (String → Option String)) (positions : List ℕ) (o : Opened)
      → HasFilters (made ths positions o).listing.world
        × (val (made ths positions o).listing.world "#show_demandes_done"
            ≡ val o.listing.world "#show_demandes_done")
        × (val (made ths positions o).listing.world "#show_demandes_archived"
            ≡ val o.listing.world "#show_demandes_archived")
        × ((made ths positions o).listing.loads
            ≡ appel_ajax (init_flags to_utc_string now o.listing) ∷ o.listing.loads)
  unfolding open_table size on val
  made_lem ths positions o =
      let options =
        init_val_data_table (appel_ajax (init_flags to_utc_string now o.listing)) ths positions in
      let l = init_flags to_utc_string now o.listing in
      let (same_world, same_loads) = init_flags-world to_utc_string now o.listing in
      (
        makes_filters options l.world,
        keeps_done options l.world ∙ ap (λ w. val w "#show_demandes_done") same_world,
        keeps_archived options l.world ∙ ap (λ w. val w "#show_demandes_archived") same_world,
        ap (λ ls. appel_ajax l ∷ ls) same_loads,
      )

  -- When the list of requests is opened with cookies that hold a choice for the two checkboxes or
  -- are not set (which counts as not shown), where the library makes an element `.filtres` and
  -- leaves the page's two fields, which do not say `true`, then each checkbox shows its choice,
  -- the table is loaded once, from the address with the two choices, and `filtrertermine` and
  -- `filtrerarchive` both search for every state.
  pub open_list-agrees :
      (ths : List (String → Option String)) (positions : List ℕ) (a b : Option Bool) (o : Opened)
      → IsJar o.listing.jar
      → flag done_cookie o.listing ≡ choice_text a
      → flag archived_cookie o.listing ≡ choice_text b
      → is (val o.listing.world "#show_demandes_done") "true" ≡ false
      → is (val o.listing.world "#show_demandes_archived") "true" ≡ false
      → let r = open_list data_table to_utc_string now ths positions o in
        (prop_checked r.listing.world "#affichertermine" ≡ some (or_false a))
        × (prop_checked r.listing.world "#afficherarchive" ≡ some (or_false b))
        × (r.listing.loads
            ≡ list_url (flag_text (or_false a)) (flag_text (or_false b)) ∷ o.listing.loads)
        × (r.searches ≡ any_state ∷ any_state ∷ o.searches)
  unfolding open_list open_table flag show_done show_archived run
  open_list-agrees ths positions a b o j ha hb no_done no_archived =
      let m = made ths positions o in
      let (filters, done_val, archived_val, loads) = made_lem ths positions o in
      let (_, done_flag, archived_flag) =
        run-init_flags to_utc_string now [] a b o.listing j ha hb in
      let (box, searched, still) = show_done_lem m (or_false a) filters (
        checked_attribute-flag "#show_demandes_done" done_cookie m.listing (or_false a)
          (rw done_val no_done) done_flag) in
      let (box', searched', kept) = show_archived_lem (show_done m) (or_false b) still (
        checked_attribute-flag "#show_demandes_archived" archived_cookie (show_done m).listing
          (or_false b) (rw (show_done-val m filters, archived_val) no_archived) archived_flag) in
      (
        kept ∙ box,
        box',
        loads
            ∙ ap (λ t. t ∷ o.listing.loads)
                (address (init_flags to_utc_string now o.listing) (or_false a) (or_false b)
                  done_flag archived_flag),
        searched' ∙ ap (λ ss. any_state ∷ ss) searched,
      )
