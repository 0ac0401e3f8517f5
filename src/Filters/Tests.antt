-- ===== src/Filters/Tests.antt =====
-- The checkboxes and the search at concrete pages.
use cidemis.Base.{
  ℕ, ◌≡◌, refl, none, some, true, false, [], ◌∷◌, Text, codes, split, split_from, starts_with,
}
use cidemis.Samples.{field, page}
use cidemis.Cookies.{get_cookie_value, read_parts}
use cidemis.Cookies.Jar.{cookie_text}
use cidemis.Filters.{
  Listing, done_cookie, archived_cookie, flag, init_flags, searchtable, search_value,
  search_pattern, replace_percent,
}
use cidemis.Filters.Toggles.{Flags}
use cidemis.Filters.Events.{done_changed, archived_changed, loaded, run, run-init_flags}

abbrev print_time : ℕ → Text
print_time n = b'T' ∷ []

-- No cookie is set.
abbrev fresh : Listing
fresh = record {
  world = page (("#affichertermine", field "") ∷ ("#afficherarchive", field "") ∷ []);
  jar = [];
  checkbox_already_checked = false;
  loads = [];
}

fresh_done : flag done_cookie fresh ≡ none
unfolding flag cookie_text get_cookie_value done_cookie codes split split_from starts_with
    read_parts
fresh_done = refl

fresh_archived : flag archived_cookie fresh ≡ none
unfolding flag cookie_text get_cookie_value archived_cookie codes split split_from starts_with
    read_parts
fresh_archived = refl

run-init_flags_example :
    Flags
      (run print_time 0
        (done_changed ∷ loaded ∷ archived_changed ∷ loaded ∷ done_changed ∷ [])
        (init_flags print_time 0 fresh))
      false
      true
run-init_flags_example =
    run-init_flags print_time 0
      (done_changed ∷ loaded ∷ archived_changed ∷ loaded ∷ done_changed ∷ []) none none fresh
      (tt, tt) fresh_done fresh_archived

-- The page after its first load.
abbrev opened : Listing
opened = run print_time 0 [] (init_flags print_time 0 fresh)

opened-Flags : Flags opened false false
opened-Flags = run-init_flags print_time 0 [] none none fresh (tt, tt) fresh_done fresh_archived

-- a%b%c
abbrev sought : Text
sought = b'a' ∷ b'%' ∷ b'b' ∷ b'%' ∷ b'c' ∷ []

found : (searchtable (some "col_ppn") sought).pattern ≡ codes "^a(.*)b%c$"
unfolding searchtable search_pattern search_value replace_percent codes
found = refl

sought_as_typed : search_value (some "col_ppn") sought ≡ sought
unfolding search_value
sought_as_typed = refl
