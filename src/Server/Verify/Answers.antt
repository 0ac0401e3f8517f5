-- ===== src/Server/Verify/Answers.antt =====
-- What the form makes of the server's answers about a PPN.
use package.text.Mathlib.Text.{◌==◌ as str_eq}
use package.text.Mathlib.TextEquality.{eq_iff}
use Prim.Native.String.{◌++◌}
use Prim.Native.String.append
use cidemis.Base.{
  String, Bool, true, false, not, Option, none, some, List, [], ◌∷◌, Text, ◌≡◌, ◌≢◌, sym, ◌∙◌, ◌↔◌,
  ◌⊎◌, refl, ap, All, if◌then◌else◌, arith,
}
use cidemis.Browser.{World, Outside, Post, Reply, success, Body, ajax}
use cidemis.Service.{
  truthy, notice_answer, written, ppn_post, notice_post, ppn_message, verifierppnajax,
  verifiernoticeajax,
}
use cidemis.Server.{Notice, Demande}
use cidemis.Server.Verify.{
  has_centre, is_serial, of_ppn, is_pending, find_pending, ppn_verdict, verif_ppn, is_ppn,
  verif_notice, sent, routes,
}

find_pending_iff :
    (ppn : String) (demandes : List Demande)
    → (find_pending ppn demandes ≡ false)
      ↔ All (λ d. (of_ppn ppn d ≡ true → is_pending d ≡ false)) demandes
find_pending_iff ppn [] = ground arith
find_pending_iff ppn (d ∷ ds) = ground (arith, find_pending_iff ppn ds)

-- A number may be asked for: the record is there, has no centre of the ISSN yet and is of a serial,
-- and no request for its number is open or was accepted.
pub data IsNumberable (find : Text → Option Notice) (demandes : List Demande) (ppn : Text)
    : Type 0 where
  numberable :
      (n : Notice)
      → find ppn ≡ some n
      → str_eq n.ppn "" ≡ false
      → has_centre n.centre_issn ≡ false
      → is_serial n.type_document ≡ true
      → All (λ d. (of_ppn n.ppn d ≡ true → is_pending d ≡ false)) demandes
      → IsNumberable find demandes ppn

abbrev answer : Bool → Bool → Bool → String
answer centre serial pending =
    if centre
    then "ISSN_EXISTANT"
    else if not serial
    then "MONOGRAPHIE"
    else if pending
    then "DEMANDE_EXISTANTE"
    else "OK"

append-ne : (s p : String) → s ≢ "" → (s ++ p) ≢ ""
append-ne String.[] p h e = absurd (h refl)
append-ne (String.◌∷◌ c s) p h e = no_cons (sym (append.cons c s p) ∙ e)
  where
    no_cons : String.◌∷◌ c (s ++ p) ≢ ""
    no_cons e = cc

exists_message : (p : String) → truthy (ppn_message p "DEMANDE_EXISTANTE") ≡ true
exists_message p = ground (
  arith,
  eq_iff ("Une demande de numérotation existe déjà pour le ppn " ++ p) "",
  append-ne "Une demande de numérotation existe déjà pour le ppn " p (λ e. cc),
)

assigned_message : (p : String) → truthy (ppn_message p "ISSN_EXISTANT") ≡ true
assigned_message p = ground (
  arith,
  eq_iff ("Un ISSN a déjà été attribué pour le ppn " ++ p) "",
  append-ne "Un ISSN a déjà été attribué pour le ppn " p (λ e. cc),
)

answer-passes :
    (p : String) (centre serial pending : Bool)
    → (truthy (ppn_message p (answer centre serial pending)) ≡ false)
      ↔ ((centre ≡ false) × (serial ≡ true) × (pending ≡ false))
answer-passes p true serial pending = ground (arith, assigned_message p)
answer-passes p false false pending = ground arith
answer-passes p false true true = ground (arith, exists_message p)
answer-passes p false true false = ground arith

verif_ppn-passes :
    (find : Text → Option Notice) (demandes : List Demande) (p : String) (ppn : Text)
    → (truthy (ppn_message p (verif_ppn find demandes ppn)) ≡ false)
      ↔ IsNumberable find demandes ppn
unfolding verif_ppn ppn_verdict
verif_ppn-passes find demandes p ppn = (to (find ppn) refl, from)
  where
    result : Option Notice → String
    result o = elim o [
      | none ↦ "AUCUNE_NOTICE"
      | some n ↦ if str_eq n.ppn "" then "AUCUNE_NOTICE" else ppn_verdict demandes n
    ]

    passes :
        (n : Notice)
        → (truthy (ppn_message p (ppn_verdict demandes n)) ≡ false) ↔ (
            (has_centre n.centre_issn ≡ false)
            × (is_serial n.type_document ≡ true)
            × (find_pending n.ppn demandes ≡ false))
    passes n =
        answer-passes p (has_centre n.centre_issn) (is_serial n.type_document)
          (find_pending n.ppn demandes)

    known :
        (n : Notice)
        → find ppn ≡ some n
        → (empty : Bool) → str_eq n.ppn "" ≡ empty
        → truthy (ppn_message p (if empty then "AUCUNE_NOTICE" else ppn_verdict demandes n)) ≡ false
        → IsNumberable find demandes ppn
    known n is true q h = ground arith
    known n is false q h =
        let (centre, serial, pending) = (passes n).0 h in
        numberable n is q centre serial ((find_pending_iff n.ppn demandes).0 pending)

    to :
        (o : Option Notice)
        → find ppn ≡ o
        → truthy (ppn_message p (result o)) ≡ false
        → IsNumberable find demandes ppn
    to none is h = ground arith
    to (some n) is h = known n is (str_eq n.ppn "") refl h

    from :
        IsNumberable find demandes ppn
        → truthy (ppn_message p (verif_ppn find demandes ppn)) ≡ false
    from (numberable n is some_ centre serial pending) =
        rw (is, verif_ppn, some_)
          ((passes n).1 (centre, serial, (find_pending_iff n.ppn demandes).1 pending))

module _ (find : Text → Option Notice) (can_modify : Text → Bool) (demandes : List Demande)
    (rest : Post → Reply) where
  -- Where the server answers, `verifierppnajax` reports no error exactly if the record of the PPN
  -- is found, has a PPN, no centre of the ISSN and the type of a serial, and each request for a
  -- number of this PPN was refused, rejected or archived.
  pub verifierppnajax-IsNumberable :
      (o : Outside) (ppn : Option String) (w : World)
      → o.reply ≡ routes find can_modify demandes rest
      → (truthy (verifierppnajax o ppn w).0 ≡ false) ↔ IsNumberable find demandes (sent ppn)
  unfolding verifierppnajax ajax routes
  verifierppnajax-IsNumberable o ppn w server =
      rw (ap (λ f. f (ppn_post ppn)) server)
        (verif_ppn-passes find demandes (written ppn) (sent ppn))

  pub verifiernoticeajax-is_ppn :
      (o : Outside) (ppn : Option String) (w : World)
      → o.reply ≡ routes find can_modify demandes rest
      → (truthy (verifiernoticeajax o ppn w).0 ≡ false)
        ↔ ((is_ppn (sent ppn) ≡ false) ⊎ (can_modify (sent ppn) ≡ true))
  unfolding verifiernoticeajax ajax routes verif_notice
  verifiernoticeajax-is_ppn o ppn w server =
      rw (ap (λ f. f (notice_post ppn)) server) (asked (is_ppn (sent ppn)) (can_modify (sent ppn)))
    where
      asked :
          (shaped can : Bool)
          → (truthy (
                notice_answer
                  (success (Body.text (if shaped then (if can then "OK" else "NOK") else ""))))
              ≡ false)
            ↔ ((shaped ≡ false) ⊎ (can ≡ true))
      asked false can = ground arith
      asked true false = ground arith
      asked true true = ground arith
