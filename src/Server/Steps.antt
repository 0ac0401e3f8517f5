-- ===== src/Server/Steps.antt =====
-- The states that a request goes through when its form is sent (`processUpdateDemande` of
-- service/impl/DemandesService.java).
use package.text.Mathlib.Text.{◌==◌ as str_eq}
use cidemis.Base.{
  ℕ, ◌∙◌, sym, String, Bool, true, false, Option, some, List, [], ◌∷◌, Text, ◌==◌, ◌≡◌, refl,
  if◌then◌else◌, arith,
}
use cidemis.Server.{
  Result, ok, null_pointer, read_etat, >>=-ok, ok-injective, non_null, User, Demande, contains,
  is_state_in, role_abes, role_corcat, type_demande_numerotation,
}
use cidemis.Server.Rights.{can_user_modify, issn_may_modify}
use cidemis.Server.Workflow.{
  DemandeDto, change_etat, etat_of_pays, set_etat_issn, put_centre, set_centre_issn, send_to_centre,
  creer_notice, valider, enregistrer, precisions, act, process_update_demande,
}

pub if-holds {ℓ κ} :
    {A : Type ℓ} (P : A → Type κ) (c : Bool) {a b : A} → P a → P b → P (if c then a else b)
if-holds P true p q = p
if-holds P false p q = q

-- The states of the requests that are a role's turn.
abbrev open_states : ℕ → List ℕ
open_states role =
    if role == 1
    then 22 ∷ 27 ∷ []
    else if role == 2
    then 23 ∷ 24 ∷ 28 ∷ 34 ∷ []
    else if role == 4
    then 25 ∷ 35 ∷ []
    else if role == 5
    then 26 ∷ 33 ∷ 35 ∷ []
    else []

-- What an action makes of a state.
pub data Edge (role from to : ℕ) : Type 0 where
  validated : from ≡ 22 → to ≡ 24 → Edge role from to
  specified : from ≡ 27 → to ≡ 34 → Edge role from to
  sent :
      contains from (23 ∷ 24 ∷ 28 ∷ 34 ∷ []) ≡ true
      → contains to (25 ∷ 26 ∷ []) ≡ true
      → Edge role from to
  created : role ≡ role_corcat → contains to (25 ∷ 26 ∷ []) ≡ true → Edge role from to
  taken : contains from (24 ∷ 34 ∷ []) ≡ true → to ≡ 23 → Edge role from to
  asked_cataloguer : contains from (23 ∷ 24 ∷ 28 ∷ 34 ∷ []) ≡ true → to ≡ 27 → Edge role from to
  asked_corcat : contains from (25 ∷ 26 ∷ 33 ∷ 35 ∷ []) ≡ true → to ≡ 28 → Edge role from to
  accepted : contains from (25 ∷ 26 ∷ 35 ∷ []) ≡ true → to ≡ 37 → Edge role from to
  closed : contains to (36 ∷ 37 ∷ 38 ∷ []) ≡ true → Edge role from to

-- It is the turn of a role, or it is Abes's, whose turn it always is.
pub data IsTurn (role from : ℕ) : Type 0 where
  abes : role ≡ role_abes → IsTurn role from
  waits : contains from (open_states role) ≡ true → IsTurn role from

-- Nothing is noted in the journal yet.
pub data Move (role : ℕ) (d d' : Demande) : Type 0 where
  stays : d'.etat ≡ d.etat → d'.journal ≡ d.journal → Move role d d'
  goes : IsTurn role d.etat → Edge role d.etat d'.etat → d'.journal ≡ d.journal → Move role d d'

module _ (pays_fr : List Text) (centre_of : Text → Option String) where
  etat_of_pays-sent :
      (pays : Text) → contains (etat_of_pays pays_fr false pays) (25 ∷ 26 ∷ []) ≡ true
  unfolding etat_of_pays
  etat_of_pays-sent pays = ground arith

  enregistrer-Move :
      (role : ℕ) (d : Demande) → IsTurn role d.etat → Move role d (enregistrer pays_fr centre_of d)
  unfolding enregistrer change_etat is_state_in
  enregistrer-Move role d t = ground (arith, stays refl refl, goes t, taken)

  precisions-Move :
      (role : ℕ) (d : Demande) → IsTurn role d.etat → Move role d (precisions pays_fr centre_of d)
  unfolding precisions change_etat is_state_in
  precisions-Move role d t = ground (arith, stays refl refl, goes t, asked_cataloguer, asked_corcat)

  put_centre-etat :
      (d d' : Demande)
      → put_centre pays_fr centre_of d ≡ ok d'
      → (d'.etat ≡ d.etat) × (d'.journal ≡ d.journal)
  unfolding put_centre
  put_centre-etat d d' e = ground arith

  set_centre_issn-etat :
      (force : Bool) (d d' : Demande)
      → set_centre_issn pays_fr centre_of force d ≡ ok d'
      → (d'.etat ≡ d.etat) × (d'.journal ≡ d.journal)
  unfolding set_centre_issn
  set_centre_issn-etat force d d' e = ground (arith, put_centre-etat d d')

  set_etat_issn-sent :
      (d d' : Demande)
      → set_etat_issn pays_fr false d ≡ ok d'
      → (contains d'.etat (25 ∷ 26 ∷ []) ≡ true) × (d'.journal ≡ d.journal)
  unfolding set_etat_issn change_etat etat_of_pays
  set_etat_issn-sent d d' e = ground arith

  pub send_to_centre-sent :
      (force : Bool) (d d' : Demande)
      → send_to_centre pays_fr centre_of force d ≡ ok d'
      → (contains d'.etat (25 ∷ 26 ∷ []) ≡ true) × (d'.journal ≡ d.journal)
  unfolding send_to_centre
  send_to_centre-sent force d d' e =
      let (notice, _, e₁) = >>=-ok (non_null d.notice) _ e in
      let placed = record d { id_profil = some notice.idprofil } in
      let (sent_, e₂, e₃) =
        >>=-ok (set_etat_issn pays_fr false placed) (set_centre_issn pays_fr centre_of force) e₁ in
      let (state, noted) = set_centre_issn-etat force sent_ d' e₃ in
      let (to, noted') = set_etat_issn-sent placed sent_ e₂ in (rw state to, noted ∙ noted')

  pub creer_notice-sent :
      (d d' : Demande)
      → creer_notice pays_fr centre_of d ≡ ok d'
      → (contains d'.etat (25 ∷ 26 ∷ []) ≡ true) × (d'.journal ≡ d.journal)
  unfolding creer_notice
  creer_notice-sent d d' e =
      send_to_centre-sent true (record d { type_demande = type_demande_numerotation }) d' e

  valider-Move :
      (role : ℕ) (d d' : Demande)
      → IsTurn role d.etat
      → valider pays_fr centre_of d ≡ ok d'
      → Move role d d'
  unfolding valider change_etat is_state_in
  valider-Move role d d' t e = ground (
    arith,
    stays refl refl,
    goes t,
    sent,
    accepted,
    validated,
    specified,
    send_to_centre-sent false d d',
  )

  act-Move :
      (user : User) (action : String) (d d' : Demande)
      → IsTurn user.role d.etat
      → act pays_fr centre_of user action d ≡ ok d'
      → Move user.role d d'
  unfolding act change_etat
  act-Move user action d d' t =
      if-holds Moves (str_eq action "valider")
        (read (valider pays_fr centre_of d) (valider-Move user.role d d' t))
        (if-holds Moves (str_eq action "enregistrer")
          (read (ok (enregistrer pays_fr centre_of d))
            (ended (enregistrer pays_fr centre_of d) (enregistrer-Move user.role d t)))
          (if-holds Moves (str_eq action "precisions")
            (read (ok (precisions pays_fr centre_of d))
              (ended (precisions pays_fr centre_of d) (precisions-Move user.role d t)))
            (if-holds Moves (str_eq action "creernotice") made (
              if-holds Moves (str_eq action "refuser") (to_end 36 refl) (
                if-holds Moves (str_eq action "accepter") (to_end 37 refl) (
                  if-holds Moves (str_eq action "rejeter") (to_end 38 refl)
                    (ended d (stays refl refl))))))))
    where
      Moves : Result Demande → Type 0
      Moves r = r ≡ ok d' → Move user.role d d'

      read : (r : Result Demande) → Moves r → Moves (read_etat d r)
      read r = if-holds Moves (d.etat == 0) {a = null_pointer} {b = r} (λ e. cc)

      ended : (d₁ : Demande) → Move user.role d d₁ → ok d₁ ≡ ok d' → Move user.role d d'
      ended d₁ m e = rw (sym (ok-injective e)) m

      to_end :
          (n : ℕ)
          → contains n (36 ∷ 37 ∷ 38 ∷ []) ≡ true
          → ok (change_etat n d) ≡ ok d'
          → Move user.role d d'
      to_end n h = ended (change_etat n d) (goes t (closed h) refl)

      made :
          (if user.role == role_corcat then creer_notice pays_fr centre_of d else ok d) ≡ ok d'
          → Move user.role d d'
      made e = ground (arith, goes t, stays refl refl, created, creer_notice-sent d d')

  can_user_modify-IsTurn :
      (user : User) (d : Demande) → can_user_modify user d ≡ ok true → IsTurn user.role d.etat
  unfolding can_user_modify is_state_in issn_may_modify
  can_user_modify-IsTurn user d e = ground (arith, abes, waits)

  -- A form that is sent for a request of the database, where the server does not end with an
  -- exception, leaves the state of the request, or takes it along an edge of the workflow from a
  -- state that is the turn of the user's role (any state for Abes); the journal is left.
  pub process_update_demande-Move :
      (user : User) (dto : DemandeDto) (d d' : Demande)
      → process_update_demande pays_fr centre_of user dto (some d) ≡ ok d'
      → Move user.role d d'
  unfolding process_update_demande
  process_update_demande-Move user dto d d' e =
      let (may, e₁, e₂) =
        >>=-ok (can_user_modify user found)
          (λ may. if may then act pays_fr centre_of user dto.action found else ok found) e in
      moved may e₁ e₂
    where
      found : Demande
      found = record d { notice = dto.notice }

      on_request : Move user.role found d' → Move user.role d d'
      on_request (stays e j) = stays e j
      on_request (goes t e j) = goes t e j

      moved :
          (may : Bool)
          → can_user_modify user found ≡ ok may
          → (if may then act pays_fr centre_of user dto.action found else ok found) ≡ ok d'
          → Move user.role d d'
      moved true h e =
          on_request (act-Move user dto.action found d' (can_user_modify-IsTurn user found h) e)
      moved false h e = on_request (rw (sym (ok-injective e)) (Move.stays refl refl))
