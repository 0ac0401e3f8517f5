-- ===== src/Popups.antt =====
-- The popups of the page and the small handlers of its fields and buttons (scripts.js):
-- `popuppiecejointe`, `popucommentaire`, `exportPopup`, `exportMenuClic`, `closepopup`,
-- `afficherdemande`, `creationdemande`, `verificationdemande`, `goToListeDemande`, `cherchernotice`,
-- `fichierCiepsChange`, `onTypeDemandeSelectChange` and `onCodePaysSelectChange`.
pub mod Shown
mod Tests
use cidemis.Base.{String, Bool, true, false, Option, none, some, List, [], ◌∷◌, if◌then◌else◌}
use cidemis.Browser.{
  World, Outside, Element, Post, val, is, on, set_html, set_value, set_attr, show, hide, go_to,
  open_window,
}
use cidemis.Service.{Answer, ajax_popup, written, ◌++◌}
use cidemis.Hints.{put_value}
use cidemis.Submit.{Target, clicked, submit}

-- The button that is clicked names its request.
unfoldable pub popuppiecejointe : Outside → Element → World → World
popuppiecejointe o el w =
    let (answer, w') =
      ajax_popup o
        (record { url = "piece-jointe"; params = ("demandenum", el.attrs "demandenum") ∷ [] }) w in
    w'

unfoldable pub popucommentaire : Outside → Element → World → World
popucommentaire o el w =
    let (answer, w') =
      ajax_popup o
        (record { url = "commentaire"; params = ("demandenum", el.attrs "demandenum") ∷ [] }) w in
    w'

abbrev export_options : String → String
export_options kind =
    "<h4>Options d'export :</h4>" ++ "<input type='hidden' class='exporttype' value='" ++ kind
    ++ "' />"
    ++ "<input type='checkbox' id='allcolumn' value='value'>&nbsp;<label for='allcolumn'>Exporter toutes les colonnes</label>"
    ++ "<br/>"
    ++ "<input type='checkbox' id='includecomments' value='value'>&nbsp;<label for='includecomments'>Inclure les commentaires</label>"
    ++ "<br/>" ++ "<br/>"
    ++ "<button class='formbutton exporter' title='Exporter' type='button'><span>Exporter</span></button>"

unfoldable pub export_popup : String → World → World
export_popup kind w =
    on "#popup" show (on "#popup .popupcontent" (set_html (export_options kind)) w)

unfoldable pub export_menu_clic : Element → World → World
unfolding export_popup
export_menu_clic el w = export_popup (written (el.attrs "id")) w

-- `el.parents('.popup').hide()`, for the popups that the clicked element is in.
unfoldable pub closepopup : List String → World → World
closepopup [] w = w
closepopup (popup ∷ popups) w = closepopup popups (on popup hide w)

unfoldable pub afficherdemande : Target → World → World
afficherdemande t w =
    open_window ("afficher-demande?id=" ++ written ((clicked t).attrs "demande")) w

unfoldable pub creationdemande : World → World
creationdemande w =
    submit "#choix-action" (on "#choix-action" (set_attr "action" "creation-demande") w)

unfoldable pub verificationdemande : World → World
verificationdemande w = submit "#choix_notice_form" w

unfoldable pub go_to_liste_demande : World → World
go_to_liste_demande w = go_to "liste-demandes" w

unfoldable pub cherchernotice : World → World
cherchernotice w =
    if is (val w "#searched_value") ""
    then w
    else submit "#chercher-notice" (on "#search_type" (set_value "") w)

unfoldable pub fichier_cieps_change : World → World
fichier_cieps_change w = submit "form#upload-cieps" w

-- A request for a new record is searched by its title, any other by its PPN.
unfoldable pub on_type_demande_select_change : Element → World → World
on_type_demande_select_change el w =
    if is el.value "24"
    then on "label[for=\"searched_value\"]" (set_html "titre")
        (on "#search_type" (put_value el.value) w)
    else on "label[for=\"searched_value\"]" (set_html "ppn")
        (on "#search_type" (put_value el.value) w)

unfoldable pub on_code_pays_select_change : Element → World → World
on_code_pays_select_change el w = on "#code_pays" (put_value el.value) w
