-- ===== src/Events/Bindings.antt =====
-- The bindings of scripts.js and datatables.js, in the order of the code. A handler without a name
-- is called by the elements that it is bound at.
use cidemis.Base.{String, List, [], ◌∷◌, ◌++◌}
use cidemis.Events.{Binding, bound, delegated}

abbrev on_click : String → String → Binding
on_click selector handler = bound (selector ∷ []) ("click" ∷ []) handler

-- The panel of profiles.
abbrev profil_events : List String
profil_events =
    "dragstart"
    ∷ ("dragenter" ∷ ("dragleave" ∷ ("dragover" ∷ ("drop" ∷ ("dragend" ∷ ("click" ∷ []))))))

abbrev pub profil_binding : Binding
profil_binding = bound ("#profil_panel .profil" ∷ []) profil_events "initDragAnDrop"

-- The resizing of columns.
abbrev mousedown_binding : Binding
mousedown_binding =
    bound ("table thead tr:first-child div" ∷ []) ("mousedown" ∷ []) "mousedown of a column"

abbrev mouseup_binding : Binding
mouseup_binding = bound ("body" ∷ []) ("mouseup" ∷ []) "mouseup of body"

abbrev deconnecter_binding : Binding
deconnecter_binding = on_click ".deconnecter" "deconnecterClick"

-- The rows of the table.
abbrev select_binding : Binding
select_binding = delegated "#liste_demande tbody" "tr" ("click" ∷ []) "selectDemande"

abbrev deselect_binding : Binding
deselect_binding = delegated "#demandes_list" ".deselect_all" ("click" ∷ []) "deselectAll"

abbrev open_binding : Binding
open_binding = delegated "#liste_demande tbody" "tr" ("dblclick" ∷ []) "openDemande"

abbrev toggle_vis_binding : Binding
toggle_vis_binding = on_click "a.toggle-vis" "click of a.toggle-vis"

-- The e-mail address.
abbrev createmail_binding : Binding
createmail_binding = on_click "#mailpopup .createmail" "creatEmailButton"

abbrev emailbutton_binding : Binding
emailbutton_binding = on_click "#emailbutton" "showmodifemail"

abbrev modifemail_binding : Binding
modifemail_binding = on_click "#modifemail button" "modifemail"

-- The popups of a row.
abbrev piecejointe_binding : Binding
piecejointe_binding =
    delegated "#liste_demande" ".voirpiecejointe" ("click" ∷ []) "popuppiecejointe"

abbrev commentaires_binding : Binding
commentaires_binding =
    delegated "#liste_demande" ".voircommentaires" ("click" ∷ []) "popucommentaire"

-- The export.
abbrev export_menu_binding : Binding
export_menu_binding = on_click ".export_menu" "exportMenuClic"

abbrev exporter_binding : Binding
exporter_binding = delegated ".popup" ".exporter" ("click" ∷ []) "exportDemandes"

-- The choice of a record, and the search of one.
abbrev oui_binding : Binding
oui_binding = delegated ".popup" "#choix_notice .oui" ("click" ∷ []) "verificationdemande"

abbrev non_binding : Binding
non_binding = delegated ".popup" "#choix_notice .non" ("click" ∷ []) "closepopup"

abbrev chercher_binding : Binding
chercher_binding = on_click "#chercher-notice button" "cherchernotice"

-- The files of the form.
abbrev ajoutfichier_binding : Binding
ajoutfichier_binding = on_click "#ajoutfichier" "ajoutfichier"

abbrev supprimerfichier_binding : Binding
supprimerfichier_binding =
    delegated "#files" "button.supprimerfichier" ("click" ∷ []) "supprimerfichier"

abbrev supprimerfichierup_binding : Binding
supprimerfichierup_binding =
    delegated "#filesup" "button.supprimerfichierup" ("click" ∷ []) "supprimerfichierup"

abbrev supprimerpremierfichier_binding : Binding
supprimerpremierfichier_binding = on_click "#supprimerpremierfichier" "supprimerpremierfichier"

-- The ways back to the list.
abbrev list_bindings : List Binding
list_bindings =
    on_click "#creation-demande .annuler" "goToListeDemande"
    ∷ (on_click ".goto_listedemande" "goToListeDemande" ∷ [])

abbrev sidebar_binding : Binding
sidebar_binding = on_click ".sidebar-toggler" "goToListeDemande"

-- The buttons of the popups.
abbrev popup_close_binding : Binding
popup_close_binding = bound (".shadow" ∷ (".popup-close" ∷ [])) ("click" ∷ []) "closepopup"

abbrev close_bindings : List Binding
close_bindings =
    delegated ".popup" "#choix-action .Annuler" ("click" ∷ []) "closepopup"
    ∷ (delegated ".popup" ".closepopup" ("click" ∷ []) "closepopup" ∷ [])

abbrev consulter_binding : Binding
consulter_binding = delegated ".popup" "#choix-action .Consulter" ("click" ∷ []) "afficherdemande"

abbrev creer_binding : Binding
creer_binding = delegated ".popup" "#choix-action .Creer" ("click" ∷ []) "creationdemande"

-- The buttons and the fields of the form.
abbrev action_binding : Binding
action_binding = on_click "#creation-demande .actiondemande" "actiondemande"

abbrev columns_control_binding : Binding
columns_control_binding =
    bound ("#columns_control" ∷ []) ("mouseenter" ∷ []) "mouseenter of #columns_control"

abbrev cieps_binding : Binding
cieps_binding = bound ("#fichier_cieps" ∷ []) ("change" ∷ []) "fichierCiepsChange"

abbrev type_demande_binding : Binding
type_demande_binding =
    bound ("#type_demande_select" ∷ []) ("change" ∷ []) "onTypeDemandeSelectChange"

abbrev code_pays_binding : Binding
code_pays_binding = bound ("#code_pays_select" ∷ []) ("change" ∷ []) "onCodePaysSelectChange"

abbrev focus_binding : Binding
focus_binding =
    bound ("input[blurText]" ∷ ("textarea[blurText]" ∷ [])) ("focus" ∷ []) "clearTextOnFocus"

abbrev blur_binding : Binding
blur_binding = bound ("input[blurText]" ∷ ("textarea[blurText]" ∷ [])) ("blur" ∷ []) "addTextOnBlur"

-- The requests of forms.
abbrev creation_form_binding : Binding
creation_form_binding =
    delegated "body" "form.AJAXCreationForm" ("submit" ∷ []) "ajaxFormCreationSubmit"

abbrev form_binding : Binding
form_binding = delegated "body" "form.AJAXForm" ("submit" ∷ []) "ajaxFormSubmit"

-- What is bound to the table (datatables.js).
abbrev search_binding : Binding
search_binding = delegated "#liste_demande" "input,select" ("keyup" ∷ ("change" ∷ [])) "searchtable"

abbrev supprimer_binding : Binding
supprimer_binding =
    delegated "#liste_demande" ".supprimerdemande" ("click" ∷ []) "suppressiondemande"

abbrev archiver_binding : Binding
archiver_binding = delegated "#liste_demande" ".archiverdemande" ("click" ∷ []) "popuparchive"

abbrev table_bindings : List Binding
table_bindings =
    supprimer_binding ∷ archiver_binding ∷ mousedown_binding ∷ mouseup_binding ∷ deconnecter_binding
    ∷ select_binding ∷ deselect_binding ∷ open_binding ∷ toggle_vis_binding ∷ []

abbrev popup_bindings : List Binding
popup_bindings =
    createmail_binding ∷ piecejointe_binding ∷ commentaires_binding ∷ emailbutton_binding
    ∷ modifemail_binding ∷ export_menu_binding ∷ exporter_binding ∷ oui_binding ∷ non_binding
    ∷ chercher_binding ∷ []

abbrev form_bindings : List Binding
form_bindings =
    ajoutfichier_binding ∷ supprimerfichier_binding ∷ supprimerfichierup_binding
      ∷ supprimerpremierfichier_binding ∷ list_bindings
    ++ (popup_close_binding ∷ close_bindings
        ++ (consulter_binding ∷ creer_binding ∷ action_binding ∷ sidebar_binding ∷ []))

abbrev field_bindings : List Binding
field_bindings =
    columns_control_binding ∷ cieps_binding ∷ type_demande_binding ∷ code_pays_binding
    ∷ focus_binding ∷ blur_binding ∷ creation_form_binding ∷ form_binding ∷ []

-- All that are bound before the page is ready, when those of `initPage` follow.
unfoldable pub page_bindings : List Binding
page_bindings = table_bindings ++ (popup_bindings ++ (form_bindings ++ field_bindings))
