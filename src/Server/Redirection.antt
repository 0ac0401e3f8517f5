-- ===== src/Server/Redirection.antt =====
-- The choice of another country in a form (`updateOnCBS` of service/impl/DemandesService.java), which
-- does not ask whether the user may modify the request.
use cidemis.Base.{
  ℕ, String, Bool, true, false, Option, some, List, [], Text, same, ◌==◌, ◌≡◌, sym, ap, ◌∙◌,
  if◌then◌else◌, arith,
}
use cidemis.Server.{
  Result, ok, ◌>>=◌, >>=-ok, non_null, User, Notice, Demande, type_demande_creation,
}
use cidemis.Server.Rights.{can_user_modify}
use cidemis.Server.Workflow.{
  DemandeDto, change_etat, etat_of_pays, set_etat_issn, process_update_demande,
}
use cidemis.Server.Journal.{save_journal, update_journal}
use cidemis.Server.Creation.{
  put_titre, put_profil, is_titled, update_on_cbs, finish_known, finish, process_demande,
  creer_demande,
}

update_journal-etat : (d d' : Demande) → update_journal d ≡ ok d' → d'.etat ≡ d.etat
unfolding update_journal save_journal
update_journal-etat d d' r = ground arith

-- A form names another country than the record has.
abbrev pub IsElsewhere : DemandeDto → Notice → Type 0
IsElsewhere dto n = (same dto.code_pays [] ≡ false) × (same dto.code_pays n.pays ≡ false)

module _ (pays_fr : List Text) (centre_of : Text → Option String) where
  update_on_cbs-etat :
      (dto : DemandeDto) (d d' : Demande) (n : Notice)
      → d.notice ≡ some n
      → IsElsewhere dto n
      → update_on_cbs pays_fr centre_of dto d ≡ ok d'
      → d'.etat ≡ etat_of_pays pays_fr true dto.code_pays
  unfolding update_on_cbs set_etat_issn change_etat
  update_on_cbs-etat dto d d' n is far r = ground arith

  process_demande-refused :
      (demandes : ℕ → Option Demande) (next_id id : ℕ) (user : User) (dto : DemandeDto)
      (d d' : Demande)
      → demandes id ≡ some d
      → can_user_modify user (record d { notice = dto.notice }) ≡ ok false
      → process_demande pays_fr centre_of demandes next_id user dto (some id) ≡ ok d'
      → d' ≡ record d { notice = dto.notice }
  unfolding process_demande process_update_demande
  process_demande-refused demandes next_id id user dto d d' f refused r = ground arith

  finish-elsewhere :
      (dto : DemandeDto) (d d' : Demande) (n : Notice)
      → (d.type_demande == type_demande_creation) ≡ false
      → d.notice ≡ some n
      → is_titled pays_fr centre_of (put_titre pays_fr centre_of n d).titre ≡ true
      → IsElsewhere dto n
      → finish pays_fr centre_of dto d ≡ ok d'
      → d'.etat ≡ etat_of_pays pays_fr true dto.code_pays
  unfolding finish finish_known
  finish-elsewhere dto d d' n known is titled far r =
      let (written, r₁, r₂) =
        >>=-ok (update_on_cbs pays_fr centre_of dto (put_titre pays_fr centre_of n d))
          update_journal (sym through ∙ r) in
      update_journal-etat written d' r₂
      ∙ update_on_cbs-etat dto (put_titre pays_fr centre_of n d) written n notice_kept far r₁
    where
      noting : Notice → Bool → Result Demande
      noting notice known =
          (if known
            then update_on_cbs pays_fr centre_of dto (put_titre pays_fr centre_of notice d)
            else ok (put_titre pays_fr centre_of notice d))
          >>= update_journal

      through : finish pays_fr centre_of dto d ≡ noting n true
      through =
          ap
            (λ c.
              (if c
                then update_journal (record d { titre = some dto.titre })
                else finish_known pays_fr centre_of dto d))
            known
          ∙ ap
              (λ o. non_null o >>= (λ notice.
                noting notice
                  (is_titled pays_fr centre_of (put_titre pays_fr centre_of notice d).titre)))
              is
          ∙ ap (noting n) titled

      notice_kept : (put_titre pays_fr centre_of n d).notice ≡ some n
      notice_kept = ground arith

  -- Where a user may not modify a request of the database, which does not ask for a new record,
  -- in whatever state it is, and the form names a country that the record, whose title is known,
  -- does not have, then a run of `creerDemande` that ends without an exception gives the request
  -- the state of that country.
  pub creer_demande-elsewhere :
      (demandes : ℕ → Option Demande) (next_id id : ℕ) (user : User) (dto : DemandeDto)
      (d d' : Demande) (n : Notice)
      → dto.id_demande ≡ some id
      → demandes id ≡ some d
      → dto.notice ≡ some n
      → can_user_modify user (record d { notice = dto.notice }) ≡ ok false
      → (d.type_demande == type_demande_creation) ≡ false
      → is_titled pays_fr centre_of (put_titre pays_fr centre_of n d).titre ≡ true
      → IsElsewhere dto n
      → creer_demande pays_fr centre_of demandes next_id user dto ≡ ok d'
      → d'.etat ≡ etat_of_pays pays_fr true dto.code_pays
  unfolding creer_demande
  creer_demande-elsewhere demandes next_id id user dto d d' n is f record_ refused known titled far
        r =
      let (d₁, r₁, r₂) =
        >>=-ok (process_demande pays_fr centre_of demandes next_id user dto dto.id_demande)
          (λ d. finish pays_fr centre_of dto (put_profil pays_fr centre_of user dto d)) r in
      let same_ =
        process_demande-refused demandes next_id id user dto d d₁ f refused
          (sym (ap (process_demande pays_fr centre_of demandes next_id user dto) is) ∙ r₁) in
      finish-elsewhere dto (put_profil pays_fr centre_of user dto d₁) d' n (kind d₁ same_)
        (found d₁ same_) (named d₁ same_) far r₂
    where
      kind :
          (d₁ : Demande)
          → d₁ ≡ record d { notice = dto.notice }
          → ((put_profil pays_fr centre_of user dto d₁).type_demande == type_demande_creation)
            ≡ false
      kind d₁ same_ = ground arith

      found :
          (d₁ : Demande)
          → d₁ ≡ record d { notice = dto.notice }
          → (put_profil pays_fr centre_of user dto d₁).notice ≡ some n
      found d₁ same_ = ground arith

      named :
          (d₁ : Demande)
          → d₁ ≡ record d { notice = dto.notice }
          → is_titled pays_fr centre_of
              (put_titre pays_fr centre_of n (put_profil pays_fr centre_of user dto d₁)).titre
            ≡ true
      named d₁ same_ = ground arith
