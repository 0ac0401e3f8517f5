-- ===== src/Sending/Tests.antt =====
-- Requests of forms at concrete pages.
use cidemis.Base.{ℕ, String, ◌≡◌, refl, ◌⊎◌, none, some, true, List, [], ◌∷◌, Text}
use cidemis.Base as Base
use cidemis.Samples.{field, page}
use cidemis.Sending.{
  Session, ajax_form_submit, ajax_form_creation_submit, AjaxForm, answered, end_form_submit,
  end_creation_submit, ajax_form_handler, ajax_creation_handler, bound, reports_error, index_of,
}
use cidemis.Sending.Waiting.{IsUsable, end_form_submit-IsUsable}
use cidemis.Sending.Once.{form_post, creation_post, ajax_form_handler-posts}
use cidemis.Sending.Bound.{end_creation_submit-bound}

abbrev form : AjaxForm
form = record {
  action = "modification-demande";
  popupid = some "popup";
  fields = ("id", some "7") ∷ [];
}

abbrev session : Session
session = record {
  world = page (
      ("#myDIV", field "")
      ∷ ("#validationBouton", field "Valider")
      ∷ ("#popup", field "")
      ∷ ("#popup .popupcontent", field "")
      ∷ []);
  handlers =
      ("form.AJAXCreationForm", ajax_form_creation_submit)
      ∷ ("form.AJAXForm", ajax_form_submit)
      ∷ [];
  cookies = [];
}

abbrev print_time : ℕ → Text
print_time n = b'T' ∷ []

error_page : reports_error "<div class=\"popuperreurnotice\">" ≡ true
unfolding index_of Base.codes Base.starts_with
error_page = refl

end_form_submit-IsUsable_example :
    IsUsable (end_form_submit print_time 0 form (answered "<p>erreur</p>") session).world
    ⊎ (answered "<p>erreur</p>" ≡ answered "RESEND_FORM")
end_form_submit-IsUsable_example =
    end_form_submit-IsUsable print_time 0 form (answered "<p>erreur</p>") session

end_creation_submit-bound_example :
    bound "form.AJAXCreationForm" ajax_form_creation_submit
      (end_creation_submit print_time 0 form (answered "") session).handlers
    ≡ bound "form.AJAXCreationForm" ajax_form_creation_submit session.handlers
end_creation_submit-bound_example =
    end_creation_submit-bound print_time 0 form (answered "") session

ajax_form_handler-posts_example :
    ((ajax_form_handler print_time 0 form (answered "RESEND_FORM") session).world.posts
      ≡ form_post form ∷ [])
    × ((ajax_form_handler print_time 0 form (answered "RESEND_FORM") session).world.submits
        ≡ "form.AJAXForm" ∷ [])
    × ((ajax_creation_handler print_time 0 form (answered "RESEND_FORM") session).world.posts
        ≡ creation_post form ∷ [])
    × ((ajax_creation_handler print_time 0 form (answered "RESEND_FORM") session).world.submits
        ≡ [])
ajax_form_handler-posts_example =
    ajax_form_handler-posts print_time 0 form (answered "RESEND_FORM") session
