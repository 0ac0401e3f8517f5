-- ===== src/Form/Meaning.antt =====
-- What an accepted form is known to hold.
use package.text.Mathlib.Text.{◌==◌ as str_eq}
use package.text.Mathlib.TextEquality.{eq_iff}
use package.text.Mathlib.TextPositions.{eq_refl}
use cidemis.Base.{
  and_left, and_right, ◌≡◌, ◌≢◌, refl, sym, ◌∙◌, ◌⊎◌, inl, inr, String, Bool, true, false, ◌&&◌,
  ◌||◌, Option, none, some, if◌then◌else◌, codes, arith,
}
use cidemis.Browser.{World, Outside, val, attr, is, falsy, opt_eq, Reply, success, failure, Body}
use cidemis.Issn.{checksum_ok, issn_format}
use cidemis.Issn.Format.{IsIssn, format-checksum-IsIssn}
use cidemis.Service.{issn_post, truthy, exist_answer}
use cidemis.Form.{verifdemande, file_total, comment_missing, awaits_answer}
use cidemis.Form.Conditions.{
  correction_ok, files_ok, comment_ok, zones_ok, ppn_ok, answer_ok, number_ok, issn_ok, notice_ok,
  issn_refused,
}
use cidemis.Form.Verdict.{form_ok, verifdemande-form_ok}

-- Each condition of an accepted form holds.
record Held (o : Outside) (action : Option String) (w : World) : Type 0 where
  correction : correction_ok w ≡ true
  files : files_ok o action (file_total w) w ≡ true
  precisions : comment_ok "precisions" action w ≡ true
  refusal : comment_ok "refuser" action w ≡ true
  zones : zones_ok action w ≡ true
  ppn : ppn_ok o action w ≡ true
  answer : answer_ok w ≡ true
  issn : issn_ok o action w ≡ true
  rejection : comment_ok "rejeter" action w ≡ true
  notice : notice_ok o action w ≡ true

verifdemande-Held :
    (o : Outside) (action : Option String) (w : World)
    → (verifdemande o action w).0 ≡ true
    → Held o action w
verifdemande-Held o action w h =
    let h10 : form_ok o action w ≡ true = sym (verifdemande-form_ok o action w) ∙ h in
    let h9 = and_left _ _ h10 in
    let h8 = and_left _ _ h9 in
    let h7 = and_left _ _ h8 in
    let h6 = and_left _ _ h7 in
    let h5 = and_left _ _ h6 in
    let h4 = and_left _ _ h5 in
    let h3 = and_left _ _ h4 in
    let h2 = and_left _ _ h3 in
    record {
      correction = and_left _ _ h2;
      files = and_right _ _ h2;
      precisions = and_right _ _ h3;
      refusal = and_right _ _ h4;
      zones = and_right _ _ h5;
      ppn = and_right _ _ h6;
      answer = and_right _ _ h7;
      issn = and_right _ _ h8;
      rejection = and_right _ _ h9;
      notice = and_right _ _ h10;
    }

-- A comment of the user's own: not empty, and not the hint that the field shows.
abbrev pub IsCommented : World → Type 0
IsCommented w =
    (c : String) × (val w "#commentaire" ≡ some c)
    × (c ≢ "")
    × (attr w "#commentaire" "blurText" ≢ some c)

not_missing_parts :
    (v hint : Option String)
    → (falsy v || opt_eq v hint) ≡ false
    → (c : String) × (v ≡ some c) × (c ≢ "") × (hint ≢ some c)
not_missing_parts none hint h = cc
not_missing_parts (some c) none h = (c, refl, ground (arith, eq_iff c ""), λ e. cc)
not_missing_parts (some c) (some d) h =
    (c, refl, ground (arith, eq_iff c ""), λ e. ground (arith, eq_iff c d))

comment_of_held :
    (a : String) (action : Option String) (w : World)
    → comment_ok a action w ≡ true
    → action ≡ some a
    → comment_missing w ≡ false
comment_of_held a action w h e = explained (str_eq a a) (comment_missing w) (eq_refl a) (rw e at h)
  where
    explained : (b m : Bool) → b ≡ true → (if b && m then false else true) ≡ true → m ≡ false
    explained b m e h = ground arith

-- If `verifdemande` accepts one of the actions `precisions`, `refuser` and `rejeter`, the comment
-- field holds a text that is neither empty nor the field's hint.
pub verifdemande-IsCommented :
    (o : Outside) (action : Option String) (w : World)
    → (action ≡ some "precisions") ⊎ ((action ≡ some "refuser") ⊎ (action ≡ some "rejeter"))
    → (verifdemande o action w).0 ≡ true
    → IsCommented w
verifdemande-IsCommented o action w a h =
    let held = verifdemande-Held o action w h in
    not_missing_parts _ _ (elim a [
      | inl e ↦ comment_of_held _ action w held.precisions e
      | inr (inl e) ↦ comment_of_held _ action w held.refusal e
      | inr (inr e) ↦ comment_of_held _ action w held.rejection e
    ])

-- If `verifdemande` accepts any action on a request in state 27 or 28, the comment field holds a
-- text that is neither empty nor the field's hint.
pub verifdemande-answer_IsCommented :
    (o : Outside) (action : Option String) (w : World)
    → awaits_answer w ≡ true
    → (verifdemande o action w).0 ≡ true
    → IsCommented w
verifdemande-answer_IsCommented o action w a h =
    let held = verifdemande-Held o action w h in
    not_missing_parts _ _ (waiting (awaits_answer w) (comment_missing w) a held.answer)
  where
    waiting : (a m : Bool) → a ≡ true → (if a && m then false else true) ≡ true → m ≡ false
    waiting a m e h = ground arith

-- `verifier-issn` was answered, and not by the news that the number is taken.
abbrev pub IsFree : Reply → Type 0
IsFree r = (r ≢ failure) × (r ≢ success (Body.exist true))

IsFree-of_answer : (r : Reply) → truthy (exist_answer r) ≡ false → IsFree r
IsFree-of_answer (success (Body.text t)) h = (λ e. cc, λ e. cc)
IsFree-of_answer (success (Body.exist false)) h = (λ e. cc, λ e. cc)
IsFree-of_answer (success (Body.exist true)) h = cc
IsFree-of_answer failure h = cc

number_ok_parts :
    (o : Outside) (v : Option String) (w : World)
    → (if falsy v then false else number_ok o v w) ≡ true
    → (issn : String) × (v ≡ some issn) × IsIssn (codes issn) × (issn_refused o w ≡ false)
number_ok_parts o none w h = cc
number_ok_parts o (some s) w h =
    let form : issn_format (codes s) ≡ true = ground arith in
    let sum : checksum_ok (codes s) ≡ true = ground arith in
    (s, refl, format-checksum-IsIssn (codes s) form sum, ground arith)

type_22 :
    (b : Bool) (v : Option String)
    → v ≡ some "22"
    → (if is v "22" then b else true) ≡ true
    → b ≡ true
type_22 b v e h = rw e at h

-- If `verifdemande` accepts the action `accepter` on a form of type 22, then the number in the
-- form is an ISSN (form and check digit) and the server answered `verifier-issn` without failing
-- and without reporting it as taken.
pub verifdemande-IsIssn :
    (o : Outside) (w : World)
    → val w "#type_demande" ≡ some "22"
    → (verifdemande o (some "accepter") w).0 ≡ true
    → (issn : String) × (val w "#num_ISSN" ≡ some issn)
      × IsIssn (codes issn)
      × IsFree (o.reply (issn_post (some issn) (val w "#ppn")))
verifdemande-IsIssn o w t h =
    let (issn, e, ok, free) =
      number_ok_parts o (val w "#num_ISSN") w
        (type_22 _ (val w "#type_demande") t (verifdemande-Held o (some "accepter") w h).issn) in
    (issn, e, ok, IsFree-of_answer _ (rw e at free))

-- A correction is only validated with a zone chosen.
verifdemande-zones :
    (o : Outside) (w : World)
    → val w "#type_demande" ≡ some "23"
    → (verifdemande o (some "valider") w).0 ≡ true
    → falsy (val w "#zones") ≡ false
verifdemande-zones o w t h =
    type_23 (val w "#type_demande") _ t (verifdemande-Held o (some "valider") w h).zones
  where
    type_23 :
        (v : Option String) (b : Bool)
        → v ≡ some "23"
        → (if is v "23" && is (some "valider") "valider" then (if b then false else true) else true)
          ≡ true
        → b ≡ false
    type_23 v b e h = let k = rw e at h in ground arith
