-- ===== src/Server/Workflow.antt =====
-- How the form changes a request of the database: `processUpdateDemande`, `changeEtat`, `setEtatISSN`
-- and `setCentreISSN` (service/impl/DemandesService.java). A state that the tables of the database
-- name by its number is that number.
use package.text.Mathlib.Text.{◌==◌ as str_eq}
use cidemis.Base.{
  ℕ, String, Bool, true, false, ◌&&◌, ◌||◌, Option, none, some, List, [], ◌∷◌, Text, codes, same,
  ◌==◌, if◌then◌else◌,
}
use cidemis.Server.{
  Result, ok, read_etat, index_out_of_bounds, ◌>>=◌, non_null, User, Notice, Demande, is_state_in,
  role_corcat, type_demande_numerotation, type_demande_correction,
  etat_en_attente_validation_catalogueur, etat_en_attente_validation_responsable_cr,
  etat_validee_par_catalogueur, etat_validee_par_corcat, etat_validee_par_corcat_vers_international,
  etat_en_attente_precision_catalogueur, etat_en_attente_precision_corcat, etat_vers_international,
  etat_precision_par_catalogueur, etat_precision_par_corcat, etat_traitement_termine_refusee,
  etat_traitement_termine_acceptee, etat_traitement_rejetee_par_corcat,
}
use cidemis.Server.Rights.{can_user_modify}

-- What the form says of the request, and the record of its PPN. A number -1 is `none`: the request is
-- new.
pub record DemandeDto : Type 0 where
  pub id_demande : Option ℕ
  pub titre : String
  pub action : String
  pub types_demandes : ℕ
  pub code_pays : Text
  pub id_profil : Option ℕ
  pub notice : Option Notice

unfoldable pub change_etat : ℕ → Demande → Demande
change_etat etat d = record d { etat = etat }

abbrev pub member_text : Text → List Text → Bool
member_text t [] = false
member_text t (u ∷ us) = same u t || member_text t us

abbrev all_spaces : Text → Bool
all_spaces [] = true
all_spaces (c ∷ t) = c == b' ' && all_spaces t

abbrev until_space : Text → Text
until_space [] = []
until_space (c ∷ t) = let rest = until_space t in if c == b' ' then [] else c ∷ rest

-- `pays.split(" ")[0]`: the array of a text of spaces alone has no element.
unfoldable pub first_word : Text → Result Text
first_word [] = ok []
first_word (c ∷ t) = if all_spaces (c ∷ t) then index_out_of_bounds else ok (until_space (c ∷ t))

abbrev is_null {ℓ} : {A : Type ℓ} → Option A → Bool
is_null none = true
is_null (some a) = false

-- `pays_fr` are the codes of the countries of the French centre, which are read from a file.
module _ (pays_fr : List Text) where
  unfoldable pub etat_of_pays : Bool → Text → ℕ
  etat_of_pays from_issn pays =
      if member_text pays pays_fr
      then etat_validee_par_corcat
      else if from_issn
      then etat_vers_international
      else etat_validee_par_corcat_vers_international

  unfoldable pub set_etat_issn : Bool → Demande → Result Demande
  unfolding etat_of_pays change_etat
  set_etat_issn from_issn d = do
    notice ← non_null d.notice
    ok (change_etat (etat_of_pays from_issn notice.pays) d)

-- `centre_of` is the centre of a code in `CODE_PAYS_SORTED`, which is read from a file too.
module _ (pays_fr : List Text) (centre_of : Text → Option String) where
  -- A centre is looked for once, where the type of the request or `force` asks for it.
  abbrev asks_centre : Bool → Demande → Bool
  asks_centre force d =
      (force
        || (d.type_demande == type_demande_numerotation
            || d.type_demande == type_demande_correction))
      && is_null d.centre_issn

  abbrev pub country_code : Text → Text
  country_code code = if same code (codes "ZZ") then codes "XX" else code

  -- The centre of the country of the record.
  unfoldable pub put_centre : Demande → Result Demande
  unfolding first_word
  put_centre d = do
    notice ← non_null d.notice
    word ← first_word notice.pays
    centre ← non_null (centre_of (country_code word))
    ok (record d { centre_issn = some centre })

  unfoldable pub set_centre_issn : Bool → Demande → Result Demande
  unfolding put_centre
  set_centre_issn force d = if asks_centre force d then put_centre d else ok d

  -- `setIdProfil`, `setEtatISSN` and `setCentreISSN` in a row.
  unfoldable pub send_to_centre : Bool → Demande → Result Demande
  unfolding set_etat_issn set_centre_issn
  send_to_centre force d = do
    notice ← non_null d.notice
    sent ← set_etat_issn pays_fr false (record d { id_profil = some notice.idprofil })
    set_centre_issn force sent

  unfoldable pub creer_notice : Demande → Result Demande
  unfolding send_to_centre
  creer_notice d = send_to_centre true (record d { type_demande = type_demande_numerotation })

  -- The action `valider` on a request that is there.
  unfoldable pub valider : Demande → Result Demande
  unfolding send_to_centre change_etat is_state_in
  valider d =
      if is_state_in
        (etat_en_attente_validation_responsable_cr ∷ etat_validee_par_catalogueur
          ∷ etat_en_attente_precision_corcat ∷ etat_precision_par_catalogueur ∷ [])
        d
      then send_to_centre false d
      else if is_state_in
          (etat_validee_par_corcat ∷ etat_validee_par_corcat_vers_international
            ∷ etat_precision_par_corcat ∷ [])
          d
      then ok (change_etat etat_traitement_termine_acceptee d)
      else if d.etat == etat_en_attente_validation_catalogueur
      then ok (change_etat etat_validee_par_catalogueur d)
      else if d.etat == etat_en_attente_precision_catalogueur
      then ok (change_etat etat_precision_par_catalogueur d)
      else ok d

  unfoldable pub enregistrer : Demande → Demande
  unfolding change_etat is_state_in
  enregistrer d =
      if is_state_in (etat_validee_par_catalogueur ∷ etat_precision_par_catalogueur ∷ []) d
      then change_etat etat_en_attente_validation_responsable_cr d
      else d

  unfoldable pub precisions : Demande → Demande
  unfolding change_etat is_state_in
  precisions d =
      if is_state_in
        (etat_precision_par_catalogueur ∷ etat_validee_par_catalogueur
          ∷ etat_en_attente_validation_responsable_cr ∷ etat_en_attente_precision_corcat ∷ [])
        d
      then change_etat etat_en_attente_precision_catalogueur d
      else if is_state_in
          (etat_precision_par_corcat ∷ etat_validee_par_corcat_vers_international
            ∷ etat_vers_international ∷ etat_validee_par_corcat ∷ [])
          d
      then change_etat etat_en_attente_precision_corcat d
      else d

  -- What an action does, once the user may modify the request. The first three switch on the state.
  unfoldable pub act : User → String → Demande → Result Demande
  unfolding valider enregistrer precisions creer_notice change_etat
  act user action d =
      if str_eq action "valider"
      then read_etat d (valider d)
      else if str_eq action "enregistrer"
      then read_etat d (ok (enregistrer d))
      else if str_eq action "precisions"
      then read_etat d (ok (precisions d))
      else if str_eq action "creernotice"
      then (if user.role == role_corcat then creer_notice d else ok d)
      else if str_eq action "refuser"
      then ok (change_etat etat_traitement_termine_refusee d)
      else if str_eq action "accepter"
      then ok (change_etat etat_traitement_termine_acceptee d)
      else if str_eq action "rejeter"
      then ok (change_etat etat_traitement_rejetee_par_corcat d)
      else ok d

  -- `found` is the request of the form's number, `none` if there is none; its record is set before it
  -- is asked whether the request is there.
  unfoldable pub process_update_demande : User → DemandeDto → Option Demande → Result Demande
  unfolding act can_user_modify
  process_update_demande user dto found = do
    old ← non_null found
    let d = record old { notice = dto.notice }
    may ← can_user_modify user d
    (if may then act user dto.action d else ok d)
