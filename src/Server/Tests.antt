-- ===== src/Server/Tests.antt =====
-- Requests that users send.
use cidemis.Base.{
  ℕ, true, false, Option, none, some, [], ◌∷◌, codes, same, ◌≡◌, ◌↔◌, List, ◌≢◌, refl, inr, ◌==◌,
  if◌then◌else◌, arith,
}
use cidemis.Server.{ok, User, Demande, is_state_in, etat_precision_par_corcat}
use cidemis.Server.Rights.{can_user_modify, issn_may_modify}
use cidemis.Server.Workflow.{
  change_etat, etat_of_pays, set_etat_issn, first_word, put_centre, set_centre_issn, send_to_centre,
  precisions, act, process_update_demande,
}
use cidemis.Server.Journal.{save_journal, update_journal}
use cidemis.Server.Creation.{
  update_on_cbs, finish_known, finish, start, process_new_demande, process_demande, creer_demande,
}
use cidemis.Server.Samples.{french, centre, person, paper, form, sent_to}
use cidemis.Server.Steps.{Move, process_update_demande-Move}
use cidemis.Server.Completion.{HasProfil, IsPlaced, process_update_demande-completes}
use cidemis.Server.History.{IsNoted}
use cidemis.Server.History.Runs.{Reach, created_by, sent_by, Reach-IsNoted, Reach-ne}
use cidemis.Server.Deletion.{
  Services, table_after, find_demande, IsDeleted, supprimer_demande, supprimer_demande-IsDeleted,
}
use cidemis.Server.Redirection.{IsElsewhere, creer_demande-elsewhere}

asked :
    process_update_demande french centre
      (person 7 2)
      (form (some 1) "precisions" [])
      (some (sent_to 24 (24 ∷ [])))
    ≡ ok (sent_to 27 (24 ∷ []))
unfolding process_update_demande act precisions change_etat can_user_modify is_state_in
asked = refl

process_update_demande-Move_example : Move 2 (sent_to 24 (24 ∷ [])) (sent_to 27 (24 ∷ []))
process_update_demande-Move_example =
    process_update_demande-Move french centre (person 7 2) (form (some 1) "precisions" [])
      (sent_to 24 (24 ∷ [])) (sent_to 27 (24 ∷ [])) asked

abbrev database : ℕ → Option Demande
database id = if id == 1 then some (sent_to 25 (25 ∷ [])) else none

made :
    creer_demande french centre database 1 (person 7 2) (form none "valider" [])
    ≡ ok (sent_to 25 (25 ∷ []))
unfolding creer_demande process_demande process_new_demande start send_to_centre set_etat_issn
    etat_of_pays change_etat set_centre_issn put_centre first_word finish finish_known update_on_cbs
    update_journal save_journal codes same
made = refl

-- The French centre asks for more.
abbrev expert : User
expert = record (person 9 4) { id_profil = some 3 }

sent_back :
    creer_demande french centre database 2 expert (form (some 1) "precisions" [])
    ≡ ok (sent_to 28 (28 ∷ 25 ∷ []))
unfolding creer_demande process_demande process_update_demande act precisions change_etat
    can_user_modify issn_may_modify is_state_in finish finish_known update_on_cbs update_journal
    save_journal codes same
sent_back = refl

abbrev history : Reach french centre (sent_to 28 (28 ∷ 25 ∷ []))
history =
    sent_by database 2 1 expert (form (some 1) "precisions" [])
      (created_by database 1 (person 7 2) (form none "valider" []) refl (inr refl) made) refl refl
      sent_back

Reach-IsNoted_example : IsNoted (sent_to 28 (28 ∷ 25 ∷ []))
Reach-IsNoted_example = Reach-IsNoted french centre (sent_to 28 (28 ∷ 25 ∷ [])) history

Reach-ne_example : (sent_to 28 (28 ∷ 25 ∷ [])).etat ≢ etat_precision_par_corcat
Reach-ne_example = Reach-ne french centre (sent_to 28 (28 ∷ 25 ∷ [])) history

-- A request that was accepted, and a cataloguer of another library.
abbrev accepted : ℕ → Option Demande
accepted id = if id == 1 then some (sent_to 37 (37 ∷ 25 ∷ [])) else none

abbrev stranger : User
stranger = person 8 1

abbrev moved : Demande
moved = record (sent_to 33 (33 ∷ 37 ∷ 25 ∷ [])) {
  notice = some (record paper { pays = codes "US" });
}

refused :
    can_user_modify stranger (record (sent_to 37 (37 ∷ 25 ∷ [])) { notice = some paper }) ≡ ok false
unfolding can_user_modify is_state_in
refused = refl

far : IsElsewhere (form (some 1) "" (codes "US")) paper
unfolding codes same
far = (refl, refl)

redirected :
    creer_demande french centre accepted 2 stranger (form (some 1) "" (codes "US")) ≡ ok moved
unfolding creer_demande process_demande process_update_demande can_user_modify is_state_in finish
    finish_known update_on_cbs set_etat_issn etat_of_pays change_etat update_journal save_journal
    codes same
redirected = refl

creer_demande-elsewhere_example : moved.etat ≡ etat_of_pays french true (codes "US")
creer_demande-elsewhere_example =
    creer_demande-elsewhere french centre accepted 2 1 stranger (form (some 1) "" (codes "US"))
      (sent_to 37 (37 ∷ 25 ∷ [])) moved paper refl refl refl refused refl refl far redirected

abbrev outside : Services
outside = record { lets_in = true; takes_out = λ ppn d. true; deletes = λ d. true }

abbrev drafts : List Demande
drafts = sent_to 23 (23 ∷ []) ∷ []

supprimer_demande-IsDeleted_example :
    let table' = table_after drafts (supprimer_demande outside (person 7 2) 1 drafts) in
    ((find_demande 1 table' ≡ none) ↔ IsDeleted outside (person 7 2) (sent_to 23 (23 ∷ [])))
    × ((other : ℕ) → (1 == other) ≡ false → find_demande other table' ≡ find_demande other drafts)
supprimer_demande-IsDeleted_example =
    supprimer_demande-IsDeleted outside (person 7 2) drafts 1 (sent_to 23 (23 ∷ [])) refl

correspondent-HasProfil : HasProfil (person 7 2)
correspondent-HasProfil role = absurd (omega arith)

paper-IsPlaced : IsPlaced french centre paper
unfolding first_word codes
paper-IsPlaced = (codes "FR", "FRA", refl, refl)

process_update_demande-completes_example :
    (d' : Demande) × (process_update_demande french centre
        (person 7 2)
        (form (some 1) "valider" [])
        (some (sent_to 24 (24 ∷ [])))
      ≡ ok d')
    × Move 2 (sent_to 24 (24 ∷ [])) d'
process_update_demande-completes_example =
    process_update_demande-completes french centre (person 7 2) (form (some 1) "valider" [])
      (sent_to 24 (24 ∷ [])) paper correspondent-HasProfil refl paper-IsPlaced refl
