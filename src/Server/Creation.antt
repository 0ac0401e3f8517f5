-- ===== src/Server/Creation.antt =====
-- `creerDemande` with `processNewDemande` and the redirection to another country in `updateOnCBS`
-- (service/impl/DemandesService.java). Comments, tags and files are apart from the state of a request
-- and left out here.
use package.text.Mathlib.Text.{◌==◌ as str_eq}
use cidemis.Base.{
  ℕ, String, Bool, true, false, not, ◌||◌, Option, none, some, List, [], Text, same, ◌==◌,
  if◌then◌else◌,
}
use cidemis.Server.{
  Result, ok, null_pointer, ◌>>=◌, non_null, User, Notice, Demande, role_catalogueur, role_corcat,
  profil_pas_profil, admin_issn, type_demande_creation, etat_en_attente_validation_catalogueur,
  etat_en_attente_validation_responsable_cr, etat_validee_par_catalogueur,
}
use cidemis.Server.Workflow.{
  DemandeDto, change_etat, set_etat_issn, send_to_centre, creer_notice, process_update_demande,
}
use cidemis.Server.Journal.{update_journal}

abbrev pub deleted_title : String
deleted_title = "NOTICE SUPPRIMÉE DU SUDOC"

-- A request before its state is set.
abbrev pub blank : ℕ → User → DemandeDto → Option Notice → Demande
blank id user dto notice = record {
  id_demande = id;
  type_demande = dto.types_demandes;
  etat = 0;
  user_num = user.user_num;
  iln = user.iln;
  id_profil = some profil_pas_profil;
  notice = notice;
  centre_issn = none;
  titre = none;
  journal = [];
}

module _ (pays_fr : List Text) (centre_of : Text → Option String) where
  -- The state of a new request, by the action and the role.
  unfoldable pub start : User → String → Demande → Result Demande
  unfolding change_etat send_to_centre creer_notice
  start user action d =
      if str_eq action "valider"
      then (if user.role == role_catalogueur
          then ok (change_etat etat_validee_par_catalogueur d)
          else if user.role == role_corcat
          then send_to_centre pays_fr centre_of false d
          else ok d)
      else if str_eq action "creernotice"
      then (if user.role == role_corcat then creer_notice pays_fr centre_of d else ok d)
      else if user.role == role_catalogueur
      then ok (change_etat etat_en_attente_validation_catalogueur d)
      else if user.role == role_corcat
      then ok (change_etat etat_en_attente_validation_responsable_cr d)
      else ok d

  unfoldable pub process_new_demande : ℕ → User → DemandeDto → Option Notice → Result Demande
  unfolding start
  process_new_demande id user dto notice = start user dto.action (blank id user dto notice)

  abbrev pub put_pays : Text → Notice → Notice
  put_pays pays n = record n { pays = pays }

  -- A request whose form names another country than its record goes to the centre of that country.
  -- What is written to the Sudoc follows, and reads the state, which must be there.
  unfoldable pub update_on_cbs : DemandeDto → Demande → Result Demande
  unfolding set_etat_issn
  update_on_cbs dto d = do
    notice ← non_null d.notice
    moved ←
        (if same dto.code_pays [] || same dto.code_pays notice.pays
          then ok d
          else set_etat_issn pays_fr true
              (record d { notice = some (put_pays dto.code_pays notice) }))
    (if moved.etat == 0 then null_pointer else ok moved)

  abbrev title_deleted : Option String → Bool
  title_deleted none = false
  title_deleted (some t) = str_eq t deleted_title

  -- The title of the record, where it has a PPN and was not deleted.
  abbrev pub put_titre : Notice → Demande → Demande
  put_titre notice d =
      if str_eq notice.ppn "" || title_deleted d.titre
      then d
      else record d { titre = some notice.titre }

  abbrev pub is_titled : Option String → Bool
  is_titled none = false
  is_titled (some t) = not (str_eq t deleted_title)

  unfoldable pub finish_known : DemandeDto → Demande → Result Demande
  unfolding update_on_cbs update_journal
  finish_known dto d = do
    notice ← non_null d.notice
    let d' = put_titre notice d
    written ← (if is_titled d'.titre then update_on_cbs dto d' else ok d')
    update_journal written

  -- The rest of `creerDemande`, which a request for a record that is to be created skips in part.
  unfoldable pub finish : DemandeDto → Demande → Result Demande
  unfolding finish_known update_journal
  finish dto d =
      if d.type_demande == type_demande_creation
      then update_journal (record d { titre = some dto.titre })
      else finish_known dto d

  -- The request of the form, with its new state.
  unfoldable pub process_demande :
      (ℕ → Option Demande) → ℕ → User → DemandeDto → Option ℕ → Result Demande
  unfolding process_new_demande process_update_demande
  process_demande demandes next_id user dto none = process_new_demande next_id user dto dto.notice
  process_demande demandes next_id user dto (some id) =
      process_update_demande pays_fr centre_of user dto (demandes id)

  -- The administrator of the French centre chooses the profile of a request.
  abbrev pub put_profil : User → DemandeDto → Demande → Demande
  put_profil user dto d =
      if str_eq user.user_key admin_issn then record d { id_profil = dto.id_profil } else d

  -- `demandes` finds the requests of the database, and `next_id` is the next number of its sequence.
  unfoldable pub creer_demande : (ℕ → Option Demande) → ℕ → User → DemandeDto → Result Demande
  unfolding finish process_demande
  creer_demande demandes next_id user dto = do
    d ← process_demande demandes next_id user dto dto.id_demande
    finish dto (put_profil user dto d)
