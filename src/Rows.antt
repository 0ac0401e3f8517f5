-- ===== src/Rows.antt =====
-- The buttons in the rows of the table: `suppressiondemande`, `popuparchive` and their requests
-- `supprimerdemandeajax` and `archiverdemandeajax`, and `reloadTable` (datatables.js). A request is
-- asynchronous: each has a function up to the request and one for its completion.
pub mod Asked
mod Tests
use package.text.Mathlib.Text.{◌==◌ as str_eq}
use cidemis.Base.{
  ℕ, zero, suc, String, Bool, true, false, Option, none, some, List, [], ◌∷◌, if◌then◌else◌,
}
use cidemis.Browser.{World, Outside, Element, Post, ask, on, set_html, show}
use cidemis.Service.{written, ◌++◌}
use cidemis.Sending.{Completion, answered, failed, post}

-- The page, whether its table was made, and how often the table was loaded again.
pub record Table : Type 0 where
  pub world : World
  pub made : Bool
  pub reloads : ℕ

unfoldable pub reload_table : Table → Table
reload_table l = if l.made then record l { reloads = suc l.reloads } else l

abbrev pub deletion_question : Option String → String
deletion_question num =
    "Êtes-vous sûr de vouloir supprimer définitivement la demande n°" ++ written num

abbrev pub archive_question : Option String → String
archive_question num = "Êtes-vous sûr de vouloir archiver la demande n°" ++ written num ++ " ?"

unfoldable pub supprimerdemandeajax : Option String → Table → Table
supprimerdemandeajax num l = record l {
  world = post "SuppressionDemande" (("demandenum", num) ∷ []) l.world;
}

unfoldable pub archiverdemandeajax : Option String → Table → Table
archiverdemandeajax num l = record l {
  world = post "ArchivageDemande" (("demandenum", num) ∷ []) l.world;
}

-- A click on a button in a row; whether a request was sent is answered too.
unfoldable pub suppressiondemande : Outside → Element → Table → Bool × Table
suppressiondemande o el l =
    let num = el.attrs "demandenum" in
    let (sure, w) = ask o (deletion_question num) l.world in
    let l' : Table = record l { world = w } in
    if sure then (true, supprimerdemandeajax num l') else (false, l')

unfoldable pub popuparchive : Outside → Element → Table → Bool × Table
popuparchive o el l =
    let num = el.attrs "demandenum" in
    let (sure, w) = ask o (archive_question num) l.world in
    let l' : Table = record l { world = w } in
    if sure then (true, archiverdemandeajax num l') else (false, l')

-- The completions: an answer to a deletion that is not empty is shown, otherwise the table is loaded
-- again.
unfoldable pub end_deletion : Completion → Table → Table
unfolding reload_table
end_deletion failed l = l
end_deletion (answered data_) l =
    if str_eq data_ ""
    then reload_table l
    else record l { world = on "#popup" show (on "#popup .popupcontent" (set_html data_) l.world) }

unfoldable pub end_archive : Completion → Table → Table
unfolding reload_table
end_archive failed l = l
end_archive (answered data_) l = reload_table l

-- A click and what becomes of its request.
unfoldable pub delete_row : Outside → Element → Completion → Table → Table
delete_row o el c l =
    let (sent, l') = suppressiondemande o el l in if sent then end_deletion c l' else l'

unfoldable pub archive_row : Outside → Element → Completion → Table → Table
archive_row o el c l = let (sent, l') = popuparchive o el l in if sent then end_archive c l' else l'
