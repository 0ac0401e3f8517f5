-- ===== src/Events/Tests.antt =====
-- Events at concrete elements.
use cidemis.Base.{◌≡◌, refl, [], ◌∷◌, List}
use cidemis.Events.{Node, due, due_inside, dispatch, undelegate}
use cidemis.Events.Bindings.{page_bindings}

-- A button that deletes a request, in a cell of a row of the table.
abbrev delete_button : List Node
delete_button =
    (".supprimerdemande" ∷ [])
    ∷ ("td" ∷ [])
    ∷ ("tr" ∷ [])
    ∷ ("#liste_demande tbody" ∷ [])
    ∷ ("#liste_demande" ∷ [])
    ∷ ("#demandes_list" ∷ [])
    ∷ ("body" ∷ [])
    ∷ []

-- The row is selected before the question of the deletion is asked.
delete_click :
    dispatch "click" [] delete_button page_bindings ≡ "selectDemande" ∷ "suppressiondemande" ∷ []
unfolding dispatch due due_inside page_bindings
delete_click = refl

abbrev form_node : List Node
form_node = ("form.AJAXForm" ∷ []) ∷ ("body" ∷ []) ∷ []

-- The handler of a form is taken off, and is not called any more.
form_undelegated :
    dispatch "submit" [] form_node
      (undelegate "body" "form.AJAXForm" "submit" "ajaxFormSubmit" page_bindings)
    ≡ []
unfolding dispatch due due_inside undelegate page_bindings
form_undelegated = refl
