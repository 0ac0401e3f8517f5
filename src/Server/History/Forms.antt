-- ===== src/Server/History/Forms.antt =====
-- What sending a form (`creerDemande` of service/impl/DemandesService.java) leaves to be noted.
use package.text.Mathlib.Text.{◌==◌ as str_eq}
use cidemis.Base.{
  ℕ, String, true, false, Option, none, some, List, [], ◌∷◌, Text, ◌==◌, ◌≡◌, refl, ◌∙◌, ◌⊎◌, inl,
  inr, if◌then◌else◌, arith,
}
use cidemis.Server.{
  ok, >>=-ok, non_null, User, Notice, Demande, contains, role_catalogueur, role_corcat,
  type_demande_creation,
}
use cidemis.Server.Workflow.{
  DemandeDto, change_etat, send_to_centre, creer_notice, etat_of_pays, set_etat_issn,
  process_update_demande,
}
use cidemis.Server.Journal.{update_journal}
use cidemis.Server.Creation.{
  put_titre, put_profil, is_titled, update_on_cbs, finish_known, finish, start, blank,
  process_new_demande, process_demande, creer_demande,
}
use cidemis.Server.Steps.{
  Move, stays, goes, if-holds, send_to_centre-sent, creer_notice-sent, process_update_demande-Move,
}
use cidemis.Server.History.{
  acted, IsNoted, noted, IsDue, fresh, due, Keeps, keeps, update_journal-IsNoted, Keeps-IsDue,
}

-- The users and actions that give a new request a state.
abbrev pub MayCreate : User → String → Type 0
MayCreate user action =
    ((user.role ≡ role_catalogueur) × (str_eq action "creernotice" ≡ false))
    ⊎ (user.role ≡ role_corcat)

module _ (pays_fr : List Text) (centre_of : Text → Option String) where
  update_on_cbs-Keeps :
      (dto : DemandeDto) (d d' : Demande)
      → update_on_cbs pays_fr centre_of dto d ≡ ok d'
      → Keeps d d'
  unfolding update_on_cbs set_etat_issn change_etat etat_of_pays
  update_on_cbs-Keeps dto d d' r = ground (arith, keeps)

  put_titre-Keeps : (notice : Notice) (d : Demande) → Keeps d (put_titre pays_fr centre_of notice d)
  put_titre-Keeps notice d = ground (arith, keeps)

  written-Keeps :
      (dto : DemandeDto) (d d' : Demande)
      → (if is_titled pays_fr centre_of d.titre
          then update_on_cbs pays_fr centre_of dto d
          else ok d)
        ≡ ok d'
      → Keeps d d'
  written-Keeps dto d d' r = ground (arith, keeps, update_on_cbs-Keeps dto d d')

  finish_known-IsNoted :
      (dto : DemandeDto) (d d' : Demande)
      → IsDue d
      → finish_known pays_fr centre_of dto d ≡ ok d'
      → IsNoted d'
  unfolding finish_known
  finish_known-IsNoted dto d d' h r =
      let (notice, _, r₁) = >>=-ok (non_null d.notice) _ r in
      let titled = put_titre pays_fr centre_of notice d in
      let (written, r₂, r₃) =
        >>=-ok
          (if is_titled pays_fr centre_of titled.titre
            then update_on_cbs pays_fr centre_of dto titled
            else ok titled)
          update_journal r₁ in
      update_journal-IsNoted written d'
        (Keeps-IsDue titled written (written-Keeps dto titled written r₂)
          (Keeps-IsDue d titled (put_titre-Keeps notice d) h))
        r₃

  finish-IsNoted :
      (dto : DemandeDto) (d d' : Demande)
      → IsDue d
      → finish pays_fr centre_of dto d ≡ ok d'
      → IsNoted d'
  unfolding finish
  finish-IsNoted dto d d' h =
      if-holds (λ r. (r ≡ ok d' → IsNoted d')) (d.type_demande == type_demande_creation)
        (update_journal-IsNoted titled d' (Keeps-IsDue d titled (keeps refl (inl refl)) h))
        (finish_known-IsNoted dto d d' h)
    where
      titled : Demande
      titled = record d { titre = some dto.titre }

  start-first :
      (user : User) (action : String) (d d' : Demande)
      → MayCreate user action
      → start pays_fr centre_of user action d ≡ ok d'
      → (d'.journal ≡ d.journal) × (contains d'.etat (22 ∷ 23 ∷ 24 ∷ 25 ∷ 26 ∷ 33 ∷ []) ≡ true)
  unfolding start change_etat
  start-first user action d d' role r = ground (arith, sent_, made)
    where
      First : Type 0
      First =
          (d'.journal ≡ d.journal) × (contains d'.etat (22 ∷ 23 ∷ 24 ∷ 25 ∷ 26 ∷ 33 ∷ []) ≡ true)

      wider : (contains d'.etat (25 ∷ 26 ∷ []) ≡ true) × (d'.journal ≡ d.journal) → First
      wider (h, j) = (j, ground arith)

      sent_ : send_to_centre pays_fr centre_of false d ≡ ok d' → First
      sent_ e = wider (send_to_centre-sent pays_fr centre_of false d d' e)

      made : creer_notice pays_fr centre_of d ≡ ok d' → First
      made e = wider (creer_notice-sent pays_fr centre_of d d' e)

  process_demande-IsDue :
      (demandes : ℕ → Option Demande) (next_id : ℕ) (user : User) (dto : DemandeDto)
      → (dto.id_demande ≡ none → MayCreate user dto.action)
      → ((id : ℕ) (d : Demande) → dto.id_demande ≡ some id → demandes id ≡ some d → IsNoted d)
      → (d' : Demande)
      → process_demande pays_fr centre_of demandes next_id user dto dto.id_demande ≡ ok d'
      → IsDue d'
  unfolding process_demande process_new_demande process_update_demande
  process_demande-IsDue demandes next_id user dto new known d' r = by dto.id_demande refl r
    where
      moved : (d : Demande) → IsNoted d → Move user.role d d' → IsDue d'
      moved d (noted es j h) (stays s k) = due d.etat es (k ∙ j) h (inl s)
      moved d (noted es j h) (goes t edge k) = due d.etat es (k ∙ j) h (inr (acted user.role edge))

      updated :
          (id : ℕ)
          → dto.id_demande ≡ some id
          → (found : Option Demande) → demandes id ≡ found
          → process_update_demande pays_fr centre_of user dto found ≡ ok d'
          → IsDue d'
      updated id is none f r = cc
      updated id is (some d) f r =
          moved d (known id d is f) (process_update_demande-Move pays_fr centre_of user dto d d' r)

      by :
          (id : Option ℕ)
          → dto.id_demande ≡ id
          → process_demande pays_fr centre_of demandes next_id user dto id ≡ ok d'
          → IsDue d'
      by none is r =
          let (j, first) =
            start-first user dto.action (blank next_id user dto dto.notice) d' (new is) r in
          fresh j first
      by (some id) is r = updated id is (demandes id) refl r

  put_profil-Keeps :
      (user : User) (dto : DemandeDto) (d : Demande)
      → Keeps d (put_profil pays_fr centre_of user dto d)
  put_profil-Keeps user dto d = ground (arith, keeps)

  pub creer_demande-IsNoted :
      (demandes : ℕ → Option Demande) (next_id : ℕ) (user : User) (dto : DemandeDto)
      → (dto.id_demande ≡ none → MayCreate user dto.action)
      → ((id : ℕ) (d : Demande) → dto.id_demande ≡ some id → demandes id ≡ some d → IsNoted d)
      → (d' : Demande) → creer_demande pays_fr centre_of demandes next_id user dto ≡ ok d'
      → IsNoted d'
  unfolding creer_demande
  creer_demande-IsNoted demandes next_id user dto new known d' r =
      let (d, r₁, r₂) =
        >>=-ok (process_demande pays_fr centre_of demandes next_id user dto dto.id_demande)
          (λ d. finish pays_fr centre_of dto (put_profil pays_fr centre_of user dto d)) r in
      finish-IsNoted dto (put_profil pays_fr centre_of user dto d) d'
        (Keeps-IsDue d (put_profil pays_fr centre_of user dto d) (put_profil-Keeps user dto d)
          (process_demande-IsDue demandes next_id user dto new known d r₁))
        r₂
