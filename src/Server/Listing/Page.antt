-- ===== src/Server/Listing/Page.antt =====
-- The answer to the page's request for its table: `processRequest` of controller/ListeDemandesAjax.java,
-- up to the choice of the requests, and `getParameter` of web/ParamHelper.java.
use cidemis.Base.{
  ℕ, Bool, true, false, ◌&&◌, ◌||◌, Option, none, some, List, [], ◌∷◌, Text, codes, same, map, leb,
  ◌+◌, ◌==◌, ◌≡◌, refl, ap, ◌∙◌, if◌then◌else◌,
}
use cidemis.Cookies.Assign.{IsJar}
use cidemis.Filters.{
  Listing, done_cookie, archived_cookie, flag, flag_text, list_url, appel_ajax, init_flags,
}
use cidemis.Filters.Toggles.{appel_ajax-Flags}
use cidemis.Filters.Events.{
  Event, run, done_after, archived_after, choice_text, or_false, run-init_flags,
}
use cidemis.Server.{Result, ok, null_pointer, ◌>>=◌, User, Demande, profil_pas_profil}
use cidemis.Server.Listing.{filter, mark_deleted, find_demandes_by_cbs_users}
use cidemis.Server.Listing.Checkboxes.{
  sees, let_through, IsOfSudoc, find_demandes_by_cbs_users-chosen,
}

abbrev trim_front : Text → Text
trim_front [] = []
trim_front (c ∷ t) = let rest = trim_front t in if leb c 32 then rest else c ∷ t

abbrev trim_back : Text → Text
trim_back [] = []
trim_back (c ∷ t) = let rest = trim_back t in if same rest [] && leb c 32 then [] else c ∷ rest

-- `String.trim` of Java, which takes the characters up to the space away.
unfoldable pub trim_spaces : Text → Text
trim_spaces t = trim_back (trim_front t)

-- `Boolean.parseBoolean`
abbrev lower : ℕ → ℕ
lower c = if leb 65 c && leb c 90 then c + 32 else c

unfoldable pub parse_boolean : Text → Bool
unfolding codes same
parse_boolean t = same (map lower t) (codes "true")

unfoldable pub get_parameter : Option Text → Text
unfolding trim_spaces
get_parameter none = []
get_parameter (some t) = trim_spaces t

abbrev profil_toutes_demandes : ℕ
profil_toutes_demandes = 7

-- The user's own profile, if no other was chosen from the menu.
abbrev profil_id : User → ℕ → ℕ
profil_id user chosen = elim user.id_profil [
  | none ↦ chosen
  | some p ↦ if chosen == 0 then p else chosen
]

abbrev of_profil : ℕ → List Demande → Result (List Demande)
of_profil p [] = ok []
of_profil p (d ∷ ds) = do
  rest ← of_profil p ds
  elim d.id_profil [ none ↦ null_pointer | some q ↦ ok (if q == p then d ∷ rest else rest) ]

-- `parameter` is what the server reads of the address; `chosen` is the profile of the session.
unfoldable pub liste_demandes :
    (Text → Text → Option Text) → User → ℕ → List Demande → Text → Result (List Demande)
unfolding find_demandes_by_cbs_users get_parameter parse_boolean codes
liste_demandes parameter user chosen demandes url =
    let found =
      find_demandes_by_cbs_users user
        (parse_boolean (get_parameter (parameter url (codes "achieved"))))
        (parse_boolean (get_parameter (parameter url (codes "archived")))) demandes in
    let p = profil_id user chosen in
    if p == profil_pas_profil || p == profil_toutes_demandes then ok found else of_profil p found

parse-flag_text : (b : Bool) → parse_boolean (get_parameter (some (flag_text b))) ≡ b
unfolding parse_boolean get_parameter trim_spaces flag_text codes same
parse-flag_text true = refl
parse-flag_text false = refl

module _ (parameter : Text → Text → Option Text)
    (reads_achieved : (a b : Bool)
      → parameter (list_url (flag_text a) (flag_text b)) (codes "achieved") ≡ some (flag_text a))
    (reads_archived : (a b : Bool)
      → parameter (list_url (flag_text a) (flag_text b)) (codes "archived") ≡ some (flag_text b))
    (to_utc_string : ℕ → Text) (now : ℕ) where
  liste_demandes-flags :
      (a b : Bool) (user : User) (demandes : List Demande)
      → user.id_profil ≡ none
      → liste_demandes parameter user profil_pas_profil demandes
          (list_url (flag_text a) (flag_text b))
        ≡ ok (find_demandes_by_cbs_users user a b demandes)
  unfolding liste_demandes
  liste_demandes-flags a b user demandes free =
      rw (reads_achieved a b, reads_archived a b, parse-flag_text a, parse-flag_text b, free) refl

  pub liste_demandes-run :
      (es : List Event) (a b : Option Bool) (l : Listing) (user : User) (demandes : List Demande)
      → IsJar l.jar
      → flag done_cookie l ≡ choice_text a
      → flag archived_cookie l ≡ choice_text b
      → IsOfSudoc user
      → user.id_profil ≡ none
      → liste_demandes parameter user profil_pas_profil demandes
          (appel_ajax (run to_utc_string now es (init_flags to_utc_string now l)))
        ≡ ok (
            map mark_deleted (
              filter
                (λ d.
                  sees user d
                  && let_through (done_after es (or_false a)) (archived_after es (or_false b)) d)
                demandes))
  unfolding liste_demandes
  liste_demandes-run es a b l user demandes j h k role free =
      let f = run-init_flags to_utc_string now es a b l j h k in
      let x = done_after es (or_false a) in
      let y = archived_after es (or_false b) in
      ap (liste_demandes parameter user profil_pas_profil demandes)
        (appel_ajax-Flags to_utc_string now x y _ f)
      ∙ liste_demandes-flags x y user demandes free
      ∙ ap ok (find_demandes_by_cbs_users-chosen user x y demandes role)
