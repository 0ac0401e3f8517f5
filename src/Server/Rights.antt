-- ===== src/Server/Rights.antt =====
-- Who may do what with a request: `canUserModifyDemande`, `canUserArchiveDemande` and
-- `canUserDeleteDemande` (service/impl/DemandesService.java).
use package.text.Mathlib.Text.{◌==◌ as str_eq}
use cidemis.Base.{
  ℕ, Bool, true, false, ◌&&◌, ◌||◌, Option, none, some, List, [], ◌∷◌, ◌==◌, if◌then◌else◌,
}
use cidemis.Server.{
  Result, ok, null_pointer, read_etat, User, Demande, is_state_in, role_abes, role_catalogueur,
  role_corcat, role_issn, role_cieps, admin_issn, etat_en_attente_validation_catalogueur,
  etat_en_attente_precision_catalogueur, etat_validee_par_catalogueur,
  etat_precision_par_catalogueur, etat_en_attente_precision_corcat,
  etat_en_attente_validation_responsable_cr, etat_validee_par_corcat, etat_precision_par_corcat,
  etat_validee_par_corcat_vers_international, etat_vers_international,
  etat_traitement_termine_refusee, etat_traitement_termine_acceptee,
  etat_traitement_rejetee_par_corcat,
}

-- `user.getIdProfil().equals(id)`
abbrev pub has_profil : Option ℕ → Option ℕ → Result Bool
has_profil none id = null_pointer
has_profil (some p) none = ok false
has_profil (some p) (some q) = ok (p == q)

-- A user of the French centre sees the requests of his profile, its administrator all.
unfoldable pub issn_may_modify : User → Demande → Result Bool
unfolding is_state_in
issn_may_modify user d = read_etat d (
    if is_state_in (etat_validee_par_corcat ∷ etat_precision_par_corcat ∷ []) d
    then (if str_eq user.user_key admin_issn
        then ok true
        else has_profil user.id_profil d.id_profil)
    else ok false)

abbrev catalogueur_states : List ℕ
catalogueur_states =
    etat_en_attente_validation_catalogueur ∷ etat_en_attente_precision_catalogueur ∷ []

abbrev corcat_states : List ℕ
corcat_states =
    etat_precision_par_catalogueur ∷ etat_en_attente_precision_corcat
    ∷ etat_en_attente_validation_responsable_cr ∷ []

abbrev cieps_states : List ℕ
cieps_states =
    etat_validee_par_corcat_vers_international ∷ etat_precision_par_corcat ∷ etat_vers_international
    ∷ []

unfoldable pub can_user_modify : User → Demande → Result Bool
unfolding is_state_in issn_may_modify
can_user_modify user d =
    if user.role == role_abes
    then ok true
    else if user.role == role_catalogueur
    then (if d.user_num == user.user_num
        then read_etat d (ok (is_state_in catalogueur_states d))
        else ok false)
    else if user.role == role_corcat
    then (if str_eq d.iln user.iln
        then read_etat d
            (ok (d.etat == etat_validee_par_catalogueur || is_state_in corcat_states d))
        else ok false)
    else if user.role == role_issn
    then issn_may_modify user d
    else if user.role == role_cieps
    then read_etat d (ok (is_state_in cieps_states d))
    else ok false

unfoldable pub can_user_archive : User → Demande → Result Bool
can_user_archive user d =
    if user.role == role_abes || user.role == role_corcat
    then read_etat d (
        ok (
          d.etat == etat_traitement_termine_refusee
          || (d.etat == etat_traitement_termine_acceptee
              || d.etat == etat_traitement_rejetee_par_corcat)))
    else ok false

unfoldable pub can_user_delete : User → Demande → Result Bool
can_user_delete user d =
    if user.role == role_catalogueur
    then read_etat d
        (ok (d.etat == etat_en_attente_validation_catalogueur && d.user_num == user.user_num))
    else if user.role == role_abes
    then ok true
    else if user.role == role_corcat
    then read_etat d
        (ok (d.etat == etat_en_attente_validation_responsable_cr && d.user_num == user.user_num))
    else ok false
