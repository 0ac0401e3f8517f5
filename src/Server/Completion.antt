-- ===== src/Server/Completion.antt =====
-- When the server treats a form without an exception (`processUpdateDemande` of
-- service/impl/DemandesService.java).
use package.text.Mathlib.Text.{◌==◌ as str_eq}
use cidemis.Base.{
  ℕ, String, Bool, true, false, Option, some, List, Text, ◌==◌, ◌≡◌, refl, if◌then◌else◌, arith,
  Bool-cases, inl, inr, ==_iff,
}
use cidemis.Server.{
  Result, ok, null_pointer, index_out_of_bounds, ◌>>=◌, User, Notice, Demande, role_issn,
  role_corcat, type_demande_numerotation,
}
use cidemis.Server.Rights.{can_user_modify, issn_may_modify, has_profil}
use cidemis.Server.Workflow.{
  DemandeDto, first_word, country_code, etat_of_pays, set_etat_issn, put_centre, set_centre_issn,
  send_to_centre, creer_notice, valider, act, process_update_demande,
}
use cidemis.Server.Steps.{Move, if-holds, process_update_demande-Move}

abbrev pub ends {ℓ} : {A : Type ℓ} → Result A → Bool
ends (ok a) = true
ends null_pointer = false
ends index_out_of_bounds = false

>>=-ends {ℓ κ} :
    {A : Type ℓ} {B : Type κ} (r : Result A) (f : A → Result B)
    → ends r ≡ true
    → ((a : A) → r ≡ ok a → ends (f a) ≡ true)
    → ends (r >>= f) ≡ true
>>=-ends (ok a) f e h = h a refl
>>=-ends null_pointer f e h = cc
>>=-ends index_out_of_bounds f e h = cc

ends-ok {ℓ} : {A : Type ℓ} (r : Result A) → ends r ≡ true → (a : A) × (r ≡ ok a)
ends-ok (ok a) e = (a, refl)
ends-ok null_pointer e = cc
ends-ok index_out_of_bounds e = cc

-- A user of the French centre has a profile.
abbrev pub HasProfil : User → Type 0
HasProfil user = user.role ≡ role_issn → (p : ℕ) × (user.id_profil ≡ some p)

has_profil-ends :
    (user : User) (d : Demande) (p : ℕ)
    → user.id_profil ≡ some p
    → ends (has_profil user.id_profil d.id_profil) ≡ true
has_profil-ends user d p e = ground arith

can_user_modify-ends :
    (user : User) (d : Demande)
    → HasProfil user
    → (d.etat == 0) ≡ false
    → ends (can_user_modify user d) ≡ true
unfolding can_user_modify issn_may_modify
can_user_modify-ends user d h etat = elim (Bool-cases (user.role == role_issn)) [
  | inl e ↦
      (let (p, has) = h ((==_iff user.role role_issn).0 e) in
        ground (arith, has_profil-ends user d p has))
  | inr e ↦ ground arith
]

module _ (pays_fr : List Text) (centre_of : Text → Option String) where
  -- The country of a record has a centre.
  abbrev pub IsPlaced : Notice → Type 0
  IsPlaced n =
      (word : Text) × (centre : String) × (first_word n.pays ≡ ok word)
      × (centre_of (country_code pays_fr centre_of word) ≡ some centre)

  put_centre-ends :
      (d : Demande) (n : Notice)
      → d.notice ≡ some n
      → IsPlaced n
      → ends (put_centre pays_fr centre_of d) ≡ true
  unfolding put_centre
  put_centre-ends d n is (word, centre, read, found) = rw (is, read, found) refl

  set_centre_issn-ends :
      (force : Bool) (d : Demande) (n : Notice)
      → d.notice ≡ some n
      → IsPlaced n
      → ends (set_centre_issn pays_fr centre_of force d) ≡ true
  unfolding set_centre_issn
  set_centre_issn-ends force d n is placed = ground (arith, put_centre-ends d n is placed)

  send_to_centre-ends :
      (force : Bool) (d : Demande) (n : Notice)
      → d.notice ≡ some n
      → IsPlaced n
      → ends (send_to_centre pays_fr centre_of force d) ≡ true
  unfolding send_to_centre set_etat_issn
  send_to_centre-ends force d n is placed = rw is (set_centre_issn-ends force placed_ n refl placed)
    where
      placed_ : Demande
      placed_ = record d {
        id_profil = some n.idprofil;
        etat = etat_of_pays pays_fr false n.pays;
        notice = some n;
      }

  valider-ends :
      (d : Demande) (n : Notice)
      → d.notice ≡ some n
      → IsPlaced n
      → ends (valider pays_fr centre_of d) ≡ true
  unfolding valider
  valider-ends d n is placed = ground (arith, send_to_centre-ends false d n is placed)

  act-ends :
      (user : User) (action : String) (d : Demande) (n : Notice)
      → d.notice ≡ some n
      → IsPlaced n
      → (d.etat == 0) ≡ false
      → ends (act pays_fr centre_of user action d) ≡ true
  unfolding act creer_notice
  act-ends user action d n is placed etat =
      if-holds Ends (str_eq action "valider") (rw etat (valider-ends d n is placed)) (
        if-holds Ends (str_eq action "enregistrer") (rw etat refl) (
          if-holds Ends (str_eq action "precisions") (rw etat refl) (
            if-holds Ends (str_eq action "creernotice")
              (if-holds Ends (user.role == role_corcat)
                (send_to_centre-ends true (record d { type_demande = type_demande_numerotation }) n
                  is placed)
                refl)
              (if-holds Ends (str_eq action "refuser") refl (
                if-holds Ends (str_eq action "accepter") refl
                  (if-holds Ends (str_eq action "rejeter") refl refl))))))
    where
      Ends : Result Demande → Type 0
      Ends r = ends r ≡ true

  process_update_demande-ends :
      (user : User) (dto : DemandeDto) (d : Demande) (n : Notice)
      → HasProfil user
      → dto.notice ≡ some n
      → IsPlaced n
      → (d.etat == 0) ≡ false
      → ends (process_update_demande pays_fr centre_of user dto (some d)) ≡ true
  unfolding process_update_demande
  process_update_demande-ends user dto d n profil is placed etat =
      >>=-ends (can_user_modify user found) acted (can_user_modify-ends user found profil etat)
        (λ may e. done may)
    where
      found : Demande
      found = record d { notice = dto.notice }

      acted : Bool → Result Demande
      acted may = if may then act pays_fr centre_of user dto.action found else ok found

      done : (may : Bool) → ends (acted may) ≡ true
      done true = act-ends user dto.action found n is placed etat
      done false = refl

  pub process_update_demande-completes :
      (user : User) (dto : DemandeDto) (d : Demande) (n : Notice)
      → HasProfil user
      → dto.notice ≡ some n
      → IsPlaced n
      → (d.etat == 0) ≡ false
      → (d' : Demande) × (process_update_demande pays_fr centre_of user dto (some d) ≡ ok d')
        × Move user.role d d'
  process_update_demande-completes user dto d n profil is placed etat =
      let (d', r) =
        ends-ok (process_update_demande pays_fr centre_of user dto (some d))
          (process_update_demande-ends user dto d n profil is placed etat) in
      (d', r, process_update_demande-Move pays_fr centre_of user dto d d' r)
