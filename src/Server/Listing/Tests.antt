-- ===== src/Server/Listing/Tests.antt =====
-- The lists of some users.
use cidemis.Base.{
  ℕ, Bool, true, false, Option, none, some, List, [], ◌∷◌, ◌++◌, Text, codes, same, starts_with,
  split, split_from, ◌≡◌, refl, inr, ◌&&◌, map, drop, length, ◌==◌, if◌then◌else◌,
}
use cidemis.Samples.{field, page}
use cidemis.Cookies.{get_cookie_value, read_parts}
use cidemis.Cookies.Jar.{cookie_text}
use cidemis.Filters.{
  Listing, done_cookie, archived_cookie, flag, flag_text, list_url, appel_ajax, init_flags,
}
use cidemis.Filters.Events.{archived_changed, loaded, run}
use cidemis.Server.{ok, Demande, is_state_in}
use cidemis.Server.Samples.{person, paper, sent_to}
use cidemis.Server.Rights.{can_user_modify}
use cidemis.Server.Listing.{
  filter, mark_deleted, pays_issn, listed, except_archived, cieps_query, find_demandes_by_cbs_users,
}
use cidemis.Server.Listing.Checkboxes.{
  sees, let_through, find_demandes_by_cbs_users-chosen, listed-ticked, can_user_modify-listed,
}
use cidemis.Server.Listing.Page.{liste_demandes, liste_demandes-run}

abbrev table : List Demande
table = sent_to 37 (37 ∷ []) ∷ sent_to 22 (22 ∷ []) ∷ sent_to 39 (39 ∷ 37 ∷ []) ∷ []

find_demandes_by_cbs_users-chosen_example :
    find_demandes_by_cbs_users (person 7 2) true false table
    ≡ map mark_deleted (filter (λ d. sees (person 7 2) d && let_through true false d) table)
find_demandes_by_cbs_users-chosen_example =
    find_demandes_by_cbs_users-chosen (person 7 2) true false table (inr (inr refl))

-- A request that a correspondent rejected, for an American periodical.
abbrev rejected : Demande
rejected = record (sent_to 38 (38 ∷ [])) { notice = some (record paper { pays = codes "US" }) }

shown_once : listed (person 9 5) true false rejected ≡ true
unfolding listed except_archived cieps_query pays_issn codes same
shown_once = refl

listed-ticked_example :
    (listed (person 9 5) true false rejected ≡ true)
    × (listed (person 9 5) true true rejected ≡ false)
listed-ticked_example = listed-ticked (person 9 5) true false rejected shown_once

may : can_user_modify (person 7 2) (sent_to 24 (24 ∷ [])) ≡ ok true
unfolding can_user_modify is_state_in
may = refl

can_user_modify-listed_example : listed (person 7 2) false false (sent_to 24 (24 ∷ [])) ≡ true
can_user_modify-listed_example =
    can_user_modify-listed (person 7 2) false false (sent_to 24 (24 ∷ [])) (inr refl) may

-- The fields of an address.
abbrev until_next : Text → Text
until_next [] = []
until_next (c ∷ t) = let rest = until_next t in if c == b'&' then [] else c ∷ rest

abbrev find_field : Text → Text → Option Text
find_field key [] = none
find_field key (c ∷ t) =
    let rest = find_field key t in
    if starts_with key (c ∷ t) then some (until_next (drop (length key) (c ∷ t))) else rest

abbrev parameter : Text → Text → Option Text
parameter url name = find_field (name ++ (b'=' ∷ [])) url

reads_achieved :
    (a b : Bool)
    → parameter (list_url (flag_text a) (flag_text b)) (codes "achieved") ≡ some (flag_text a)
unfolding codes flag_text starts_with
reads_achieved true true = refl
reads_achieved true false = refl
reads_achieved false true = refl
reads_achieved false false = refl

reads_archived :
    (a b : Bool)
    → parameter (list_url (flag_text a) (flag_text b)) (codes "archived") ≡ some (flag_text b)
unfolding codes flag_text starts_with
reads_archived true true = refl
reads_archived true false = refl
reads_archived false true = refl
reads_archived false false = refl

abbrev print_time : ℕ → Text
print_time n = b'T' ∷ []

-- No cookie is set.
abbrev fresh : Listing
fresh = record {
  world = page (("#affichertermine", field "") ∷ ("#afficherarchive", field "") ∷ []);
  jar = [];
  checkbox_already_checked = false;
  loads = [];
}

fresh_done : flag done_cookie fresh ≡ none
unfolding flag cookie_text get_cookie_value done_cookie codes split split_from starts_with
    read_parts
fresh_done = refl

fresh_archived : flag archived_cookie fresh ≡ none
unfolding flag cookie_text get_cookie_value archived_cookie codes split split_from starts_with
    read_parts
fresh_archived = refl

liste_demandes-run_example :
    liste_demandes parameter (person 7 2) 0 table (
      appel_ajax
        (run print_time 0 (archived_changed ∷ loaded ∷ []) (init_flags print_time 0 fresh)))
    ≡ ok (map mark_deleted (filter (λ d. sees (person 7 2) d && let_through false true d) table))
liste_demandes-run_example =
    liste_demandes-run parameter reads_achieved reads_archived print_time 0
      (archived_changed ∷ loaded ∷ []) none none fresh (person 7 2) table (tt, tt) fresh_done
      fresh_archived (inr (inr refl)) refl
