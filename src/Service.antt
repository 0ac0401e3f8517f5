-- ===== src/Service.antt =====
-- The synchronous questions that the form puts to the server (`verifierppnajax`,
-- `verifiernoticeajax`, `errorISSNAjax` and `ajaxPopup` of scripts.js).
pub mod Answers
mod Tests
use Prim.Native.String as Str
use package.text.Mathlib.Text.{◌==◌ as str_eq}
use cidemis.Base.{String, Bool, true, false, not, Option, none, some, List, [], ◌∷◌, if◌then◌else◌}
use cidemis.Browser.{Reply, success, failure, Body, Post, Outside, World, ajax, on, set_html, show}

-- The value of `error` in these functions.
pub data Answer : Type 0 where
  undefined : Answer
  flag : Bool → Answer
  message : String → Answer

abbrev pub truthy : Answer → Bool
truthy undefined = false
truthy (flag b) = b
truthy (message s) = not (str_eq s "")

-- How an answer reads when it is put into a text.
abbrev pub spelling : Answer → String
spelling undefined = "undefined"
spelling (flag b) = if b then "true" else "false"
spelling (message s) = s

abbrev pub written : Option String → String
written none = "undefined"
written (some s) = s

infixl 65 ◌++◌
abbrev pub ◌++◌ : String → String → String
◌++◌ = Str.◌++◌

-- The texts that `verifier-ppn` answers with.
abbrev pub ppn_message : String → String → Answer
ppn_message ppn reply =
    if str_eq reply "OK"
    then flag false
    else if str_eq reply "DEMANDE_EXISTANTE"
    then message ("Une demande de numérotation existe déjà pour le ppn " ++ ppn)
    else if str_eq reply "AUCUNE_NOTICE"
    then message "Aucune notice n'existe avec ce ppn"
    else if str_eq reply "PPNINCORRECT"
    then message "Format du PPN incorrect."
    else if str_eq reply "ISSN_EXISTANT"
    then message ("Un ISSN a déjà été attribué pour le ppn " ++ ppn)
    else if str_eq reply "MONOGRAPHIE"
    then message "Il n'est pas possible de créer une demande sur des notices de monographies"
    else undefined

abbrev pub ppn_answer : String → Reply → Answer
ppn_answer ppn (success (Body.text reply)) = ppn_message ppn reply
ppn_answer ppn (success (Body.exist b)) = undefined
ppn_answer ppn failure = flag true

abbrev pub notice_answer : Reply → Answer
notice_answer (success (Body.text reply)) = if str_eq reply "OK" then flag false else message reply
notice_answer (success (Body.exist b)) = message "[object Object]"
notice_answer failure = flag true

-- `data.exist`
abbrev pub exist_answer : Reply → Answer
exist_answer (success (Body.text reply)) = undefined
exist_answer (success (Body.exist b)) = flag b
exist_answer failure = flag true

abbrev pub popup_body : Body → String
popup_body (Body.text reply) = reply
popup_body (Body.exist b) = "[object Object]"

abbrev pub ppn_post : Option String → Post
ppn_post ppn = record { url = "verifier-ppn"; params = ("ppn", ppn) ∷ [] }

abbrev pub notice_post : Option String → Post
notice_post ppn = record { url = "verifier-notice"; params = ("ppn", ppn) ∷ [] }

abbrev pub issn_post : Option String → Option String → Post
issn_post issn ppn = record { url = "verifier-issn"; params = ("issn", issn) ∷ ("ppn", ppn) ∷ [] }

unfoldable pub verifierppnajax : Outside → Option String → World → Answer × World
verifierppnajax o ppn w = let (r, w') = ajax o (ppn_post ppn) w in (ppn_answer (written ppn) r, w')

unfoldable pub verifiernoticeajax : Outside → Option String → World → Answer × World
verifiernoticeajax o ppn w = let (r, w') = ajax o (notice_post ppn) w in (notice_answer r, w')

unfoldable pub error_issn_ajax : Outside → Option String → Option String → World → Answer × World
error_issn_ajax o issn ppn w = let (r, w') = ajax o (issn_post issn ppn) w in (exist_answer r, w')

abbrev pub popup_result : Reply → World → Answer × World
popup_result failure w = (undefined, w)
popup_result (success body) w =
    if str_eq (popup_body body) ""
    then (flag true, w)
    else (flag false, on "#popup" show (on "#popup .popupcontent" (set_html (popup_body body)) w))

-- `ajaxPopup`: an answer that is not empty is shown in the popup.
unfoldable pub ajax_popup : Outside → Post → World → Answer × World
ajax_popup o p w = let (r, w') = ajax o p w in popup_result r w'
