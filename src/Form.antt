-- ===== src/Form.antt =====
-- The checks that a form passes before it is sent: `isValidISSN` and `verifdemande` of scripts.js.
-- `valid` and the page are handed from check to check; each check stands in the order of the code.
mod Follows
pub mod Conditions
mod Checks
pub mod Verdict
pub mod Meaning
mod Tests
use cidemis.Base.{
  ℕ, zero, suc, ◌+◌, String, Bool, true, false, not, ◌&&◌, ◌||◌, Option, none, some, List, [], ◌∷◌,
  ◌==◌, if◌then◌else◌, codes,
}
use cidemis.Browser.{
  Element, World, Outside, opt_eq, is, falsy, val, attr, size, on, add_class, set_html, show, ask,
  ajax,
}
use cidemis.Issn.{checksum_ok, issn_format}
use cidemis.Service.{truthy, spelling, ◌++◌, verifierppnajax, verifiernoticeajax, error_issn_ajax}

-- `valid` and the world.
abbrev pub State : Type 0
State = Bool × World

abbrev error_text : String → String
error_text msg = "<span class='errortxt'>" ++ msg ++ "</span>"

-- `$('#f').addClass('inputerror'); $('#f_error').html(…)`
unfoldable pub mark : String → String → World → World
mark field msg w =
    on (field ++ "_error") (set_html (error_text msg)) (on field (add_class "inputerror") w)

abbrev pub checksum_message : String
checksum_message = "Numéro ISSN invalide. Caractère de contrôle incorrect."

-- The second half of `isValidISSN`: the server is asked whether the number is taken.
unfoldable pub check_attributed : Outside → State → State
check_attributed o st =
    let (taken, w) = error_issn_ajax o (val st.1 "#num_ISSN") (val st.1 "#ppn") st.1 in
    if truthy taken then (false, mark "#num_ISSN" "Numéro ISSN déjà attribué" w) else (st.0, w)

unfoldable pub is_valid_issn : Outside → String → World → State
is_valid_issn o issn w =
    check_attributed o
      (if checksum_ok (codes issn) then (true, w) else (false, mark "#num_ISSN" checksum_message w))

-- No comment was typed: the field is empty, or shows its hint.
abbrev pub comment_missing : World → Bool
comment_missing w =
    falsy (val w "#commentaire") || opt_eq (val w "#commentaire") (attr w "#commentaire" "blurText")

abbrev has_file : Element → Bool
has_file e = not (falsy e.value)

abbrev count : (Element → Bool) → List Element → ℕ
count p [] = 0
count p (e ∷ es) = let rest = count p es in if p e then suc rest else rest

unfoldable pub file_total : World → ℕ
file_total w = size w "#filesup div" + count has_file (w.elements "#files input:file")

abbrev refuse : (World → World) → State → State
refuse f st = (false, f st.1)

-- A correction needs a comment, unless one is on record.
unfoldable pub check_correction : State → State
check_correction st =
    if is (val st.1 "#type_demande") "23" && (size st.1 ".commentaire" == 0 && comment_missing st.1)
    then refuse
        (mark "#commentaire"
          "Merci d'apporter des précisions concernant votre demande de correction dans le champ «Commentaires»")
        st
    else st

abbrev pub is_requester : World → Bool
is_requester w = is (val w "#user_role") "2" || is (val w "#user_role") "1"

abbrev pub no_files_message : String
no_files_message = "Êtes-vous sur de ne pas vouloir joindre de justificatifs"

-- A requester without any file is asked whether that is meant.
unfoldable pub check_files : Outside → Option String → ℕ → State → State
check_files o action files st =
    if is_requester st.1 && (not (is action "rejeter") && files == 0)
    then (let (ok, w) = ask o no_files_message st.1 in (if ok then st.0 else false, w))
    else st

-- `action === a` needs a comment: the form of three checks.
unfoldable pub check_comment : String → String → Option String → State → State
check_comment a msg action st =
    if is action a && comment_missing st.1 then refuse (mark "#commentaire" msg) st else st

unfoldable pub check_zones : Option String → State → State
check_zones action st =
    if is (val st.1 "#type_demande") "23" && is action "valider"
    then if falsy (val st.1 "#zones")
      then refuse
          (mark "#zones" "Vous devez choisir une zone afin de valider la demande de correction") st
      else st
    else st

unfoldable pub check_ppn : Outside → Option String → State → State
check_ppn o action st =
    if is action "creernotice"
    then if falsy (val st.1 "#num_ppn")
      then refuse
          (mark "#num_ppn"
            "Vous devez remplir le PPN de la notice afin de valider la demande de création de notice")
          st
      else (let (test_ppn, w) = verifierppnajax o (val st.1 "#num_ppn") st.1 in
          if truthy test_ppn then (false, mark "#num_ppn" (spelling test_ppn) w) else (st.0, w))
    else st

abbrev pub awaits_answer : World → Bool
awaits_answer w = is (val w "#etat_demande") "27" || is (val w "#etat_demande") "28"

-- A request for precisions is answered in a comment.
unfoldable pub check_answer : State → State
check_answer st =
    if awaits_answer st.1 && comment_missing st.1
    then refuse
        (mark "#commentaire"
          "Merci de répondre à la demande de précision en remplissant le champ «Commentaires»")
        st
    else st

abbrev pub check_number : Outside → Option String → State → State
check_number o none st = st
check_number o (some issn) st =
    if issn_format (codes issn)
    then (let (ok, w) = is_valid_issn o issn st.1 in (if ok then st.0 else false, w))
    else refuse (mark "#num_ISSN" "Le numéro ISSN doit être de la forme XXXX-XXXX") st

unfoldable pub check_issn : Outside → Option String → State → State
check_issn o action st =
    if is action "accepter" && is (val st.1 "#type_demande") "22"
    then if falsy (val st.1 "#num_ISSN")
      then refuse (mark "#num_ISSN" "Vous devez attribuer un numéro ISSN") st
      else check_number o (val st.1 "#num_ISSN") st
    else st

-- The record that the request is about is checked by the server.
abbrev pub notice_content : String → String
notice_content msg =
    "<h4>Il y a une erreur empêchant la modification de la notice.</h4>" ++ "<br/>" ++ "<p>" ++ msg
    ++ "</p>"

unfoldable pub show_popup : String → World → World
show_popup content w = on "#popup" show (on "#popup .popupcontent" (set_html content) w)

-- The record that the request is about is checked by the server.
unfoldable pub check_notice : Outside → Option String → State → State
check_notice o action st =
    if not (falsy (val st.1 "#ppn")) && not (is action "precisions")
    then (let (verif, w) = verifiernoticeajax o (val st.1 "#ppn") st.1 in
        if truthy verif then (false, show_popup (notice_content (spelling verif)) w) else (st.0, w))
    else st

abbrev pub precisions_message : String
precisions_message = "Merci de poser votre demande de précisions dans le champ «Commentaires»"

abbrev pub refusal_message : String
refusal_message = "Merci d'indiquer la raison de votre refus en remplissant le champ «Commentaires»"

abbrev pub rejection_message : String
rejection_message =
    "Merci d'indiquer la raison de votre rejet en remplissant le champ «Commentaires»"

unfoldable pub verifdemande : Outside → Option String → World → State
verifdemande o action w =
    let files = file_total w in
    let st1 = check_files o action files (check_correction (true, w)) in
    let st2 = check_comment "precisions" precisions_message action st1 in
    let st3 = check_comment "refuser" refusal_message action st2 in
    let st4 = check_ppn o action (check_zones action st3) in
    let st5 = check_issn o action (check_answer st4) in
    check_notice o action (check_comment "rejeter" rejection_message action st5)
