-- ===== src/Form/Conditions.antt =====
-- What each check of a form asks for, as a test of the page.
use cidemis.Base.{
  ℕ, String, Bool, true, false, not, ◌&&◌, Option, none, some, ◌==◌, if◌then◌else◌, codes,
}
use cidemis.Browser.{World, Outside, is, falsy, val, size}
use cidemis.Issn.{checksum_ok, issn_format}
use cidemis.Service.{
  truthy, ppn_answer, notice_answer, exist_answer, ppn_post, notice_post, issn_post, written,
}
use cidemis.Form.{comment_missing, is_requester, awaits_answer, no_files_message}

-- The conditions, in the order of the checks.
abbrev pub correction_ok : World → Bool
correction_ok w =
    if is (val w "#type_demande") "23" && (size w ".commentaire" == 0 && comment_missing w)
    then false
    else true

abbrev pub files_ok : Outside → Option String → ℕ → World → Bool
files_ok o action files w =
    if is_requester w && (not (is action "rejeter") && files == 0)
    then o.confirms no_files_message
    else true

abbrev pub comment_ok : String → Option String → World → Bool
comment_ok a action w = if is action a && comment_missing w then false else true

abbrev pub zones_ok : Option String → World → Bool
zones_ok action w =
    if is (val w "#type_demande") "23" && is action "valider"
    then (if falsy (val w "#zones") then false else true)
    else true

-- What the server says of the PPN in the form, of the record and of the ISSN.
abbrev ppn_refused : Outside → World → Bool
ppn_refused o w =
    truthy (ppn_answer (written (val w "#num_ppn")) (o.reply (ppn_post (val w "#num_ppn"))))

abbrev notice_refused : Outside → World → Bool
notice_refused o w = truthy (notice_answer (o.reply (notice_post (val w "#ppn"))))

abbrev pub issn_refused : Outside → World → Bool
issn_refused o w = truthy (exist_answer (o.reply (issn_post (val w "#num_ISSN") (val w "#ppn"))))

abbrev pub ppn_ok : Outside → Option String → World → Bool
ppn_ok o action w =
    if is action "creernotice"
    then (if falsy (val w "#num_ppn") then false else (if ppn_refused o w then false else true))
    else true

abbrev pub answer_ok : World → Bool
answer_ok w = if awaits_answer w && comment_missing w then false else true

abbrev pub number_ok : Outside → Option String → World → Bool
number_ok o none w = true
number_ok o (some issn) w =
    if issn_format (codes issn) then checksum_ok (codes issn) && not (issn_refused o w) else false

abbrev pub issn_ok : Outside → Option String → World → Bool
issn_ok o action w =
    if is action "accepter" && is (val w "#type_demande") "22"
    then (if falsy (val w "#num_ISSN") then false else number_ok o (val w "#num_ISSN") w)
    else true

abbrev pub notice_ok : Outside → Option String → World → Bool
notice_ok o action w =
    if not (falsy (val w "#ppn")) && not (is action "precisions")
    then (if notice_refused o w then false else true)
    else true
