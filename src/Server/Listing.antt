-- ===== src/Server/Listing.antt =====
-- The requests that a user is shown: the queries of dao/cidemis/IDemandesDao.java, and
-- `findDemandesByCbsUsers` with the four methods that it calls (service/impl/DemandesService.java). A
-- join with the tags may give a row several times; here each request of the table is given once.
pub mod Checkboxes
pub mod Page
mod Tests
use package.text.Mathlib.Text.{◌==◌ as str_eq}
use cidemis.Base.{
  ℕ, String, Bool, true, false, not, ◌&&◌, Option, none, some, List, [], ◌∷◌, Text, codes, same,
  map, ◌==◌, if◌then◌else◌,
}
use cidemis.Server.{
  User, Notice, Demande, contains, role_abes, role_catalogueur, role_corcat, role_issn, role_cieps,
}
use cidemis.Server.Workflow.{member_text}
use cidemis.Server.Creation.{deleted_title}

abbrev pub filter {ℓ} : {A : Type ℓ} → (A → Bool) → List A → List A
filter p [] = []
filter p (x ∷ xs) = let rest = filter p xs in if p x then x ∷ rest else rest

-- `d.etatsDemandes.idEtatDemande NOT IN (…)`, and `IN`
abbrev not_in : List ℕ → Demande → Bool
not_in states d = not (contains d.etat states)

abbrev in_ : List ℕ → Demande → Bool
in_ states d = contains d.etat states

-- The countries of the French centre, as the queries write them.
unfoldable pub pays_issn : List Text
unfolding codes
pays_issn =
    codes "FR"
    ∷ codes "GF"
    ∷ codes "GP"
    ∷ codes "MQ"
    ∷ codes "NC"
    ∷ codes "PF"
    ∷ codes "PM"
    ∷ codes "RE"
    ∷ codes "SM"
    ∷ codes "WF"
    ∷ codes "YT"
    ∷ []

-- A request without a record is in neither.
abbrev pays_in : Demande → Bool
pays_in d = elim d.notice [ none ↦ false | some n ↦ member_text n.pays pays_issn ]

abbrev pays_not_in : Demande → Bool
pays_not_in d = elim d.notice [ none ↦ false | some n ↦ not (member_text n.pays pays_issn) ]

-- `user.getIln()` and the number of the user's own requests.
abbrev of_user : ℕ → Demande → Bool
of_user num d = d.user_num == num

abbrev of_iln : String → Demande → Bool
of_iln iln d = str_eq d.iln iln

abbrev not_creation : Demande → Bool
not_creation d = not (d.type_demande == 24)

-- The four queries of each role: with the finished requests or not, and with the archived or not.
unfoldable pub abes_query : Bool → Bool → Demande → Bool
abes_query false false d = not_in (36 ∷ 37 ∷ 38 ∷ 39 ∷ []) d
abes_query false true d = not_in (36 ∷ 37 ∷ 38 ∷ []) d
abes_query true false d = not_in (39 ∷ []) d
abes_query true true d = true

unfoldable pub catalogueur_query : ℕ → Bool → Bool → Demande → Bool
catalogueur_query num false false d = of_user num d && not_in (36 ∷ 37 ∷ 38 ∷ 39 ∷ []) d
catalogueur_query num false true d = of_user num d && not_in (36 ∷ 37 ∷ 38 ∷ []) d
catalogueur_query num true false d = of_user num d && not_in (39 ∷ []) d
catalogueur_query num true true d = of_user num d

unfoldable pub corcat_query : String → Bool → Bool → Demande → Bool
corcat_query iln false false d = of_iln iln d && not_in (22 ∷ 36 ∷ 37 ∷ 38 ∷ 39 ∷ []) d
corcat_query iln false true d = of_iln iln d && not_in (22 ∷ 36 ∷ 37 ∷ 38 ∷ []) d
corcat_query iln true false d = of_iln iln d && not_in (22 ∷ 39 ∷ []) d
corcat_query iln true true d = of_iln iln d && not_in (22 ∷ []) d

unfoldable pub issn_query : Bool → Bool → Demande → Bool
issn_query false false d = pays_in d && in_ (25 ∷ 28 ∷ 35 ∷ []) d
issn_query false true d = pays_in d && in_ (25 ∷ 28 ∷ 35 ∷ 39 ∷ []) d
issn_query true false d = pays_in d && in_ (25 ∷ 28 ∷ 35 ∷ 36 ∷ 37 ∷ []) d
issn_query true true d = pays_in d

unfoldable pub cieps_query : Bool → Bool → Demande → Bool
cieps_query false false d = pays_not_in d && (in_ (26 ∷ 28 ∷ 33 ∷ 35 ∷ []) d && not_creation d)
cieps_query false true d = pays_not_in d && (in_ (26 ∷ 28 ∷ 33 ∷ 35 ∷ 39 ∷ []) d && not_creation d)
cieps_query true false d =
    pays_not_in d && (in_ (26 ∷ 28 ∷ 33 ∷ 35 ∷ 36 ∷ 37 ∷ 38 ∷ []) d && not_creation d)
cieps_query true true d =
    pays_not_in d && (in_ (26 ∷ 28 ∷ 33 ∷ 35 ∷ 36 ∷ 37 ∷ 39 ∷ []) d && not_creation d)

module _ (user : User) (d : Demande) where
  -- `getDemandesExceptAchievedAndArchived`
  unfoldable pub except_achieved_and_archived : Bool
  unfolding abes_query catalogueur_query corcat_query issn_query cieps_query
  except_achieved_and_archived =
      if user.role == role_abes
      then abes_query false false d
      else if user.role == role_catalogueur
      then catalogueur_query user.user_num false false d
      else if user.role == role_corcat
      then corcat_query user.iln false false d
      else if user.role == role_issn
      then issn_query false false d
      else if user.role == role_cieps
      then cieps_query false false d
      else false

  -- `getDemandesExceptAchieved`
  unfoldable pub except_achieved : Bool
  unfolding abes_query catalogueur_query corcat_query issn_query cieps_query
  except_achieved =
      if user.role == role_abes
      then abes_query false true d
      else if user.role == role_catalogueur
      then catalogueur_query user.user_num false true d
      else if user.role == role_corcat
      then corcat_query user.iln false true d
      else if user.role == role_issn
      then issn_query false true d
      else if user.role == role_cieps
      then cieps_query false true d
      else false

  -- `getDemandesExceptArchived`
  unfoldable pub except_archived : Bool
  unfolding abes_query catalogueur_query corcat_query issn_query cieps_query
  except_archived =
      if user.role == role_abes
      then abes_query true false d
      else if user.role == role_catalogueur
      then catalogueur_query user.user_num true false d
      else if user.role == role_corcat
      then corcat_query user.iln true false d
      else if user.role == role_issn
      then issn_query true false d
      else if user.role == role_cieps
      then cieps_query true false d
      else false

  -- `getDemandesAll`
  unfoldable pub all_ : Bool
  unfolding abes_query catalogueur_query corcat_query issn_query cieps_query
  all_ =
      if user.role == role_abes
      then abes_query true true d
      else if user.role == role_catalogueur
      then catalogueur_query user.user_num true true d
      else if user.role == role_corcat
      then corcat_query user.iln true true d
      else if user.role == role_issn
      then issn_query true true d
      else if user.role == role_cieps
      then cieps_query true true d
      else false

-- `updateNoticesSupprimees`
abbrev pub mark_deleted : Demande → Demande
mark_deleted d = elim d.notice [
  | none ↦ d
  | some n ↦
      if str_eq n.statut_notice "d"
      then record d {
        titre = some deleted_title;
        notice = some (record n { titre = deleted_title });
      }
      else d
]

-- Which of the four methods asks for the request.
unfoldable pub listed : User → Bool → Bool → Demande → Bool
unfolding all_ except_archived except_achieved except_achieved_and_archived
listed user achieved archived d =
    if achieved
    then (if archived then all_ user d else except_archived user d)
    else if archived
    then except_achieved user d
    else except_achieved_and_archived user d

-- `demandes` are the requests of the table.
unfoldable pub find_demandes_by_cbs_users : User → Bool → Bool → List Demande → List Demande
unfolding listed
find_demandes_by_cbs_users user achieved archived demandes =
    map mark_deleted (filter (listed user achieved archived) demandes)
