-- ===== src/Sending/Bound.antt =====
-- Which handlers stay bound to the forms.
use package.text.Mathlib.Text.{◌==◌ as str_eq}
use cidemis.Base.{
  ℕ, String, ◌≡◌, refl, arith, inl, inr, false, ◌&&◌, List, [], ◌∷◌, Text, Bool-cases,
}
use cidemis.Sending.{
  Session, Completion, failed, answered, AjaxForm, Handler, ajax_form_submit,
  ajax_form_creation_submit, same_handler, on_page, end_form_submit, end_creation_submit, resubmit,
  deconnecter_click, reports_error, undelegate, bound,
}
use cidemis.Submit.{submit}

pub bound-undelegate :
    (sel : String) (h : Handler) (hs : List (String × Handler))
    → bound sel h (undelegate sel h hs) ≡ false
unfolding bound undelegate
bound-undelegate sel h [] = refl
bound-undelegate sel h ((s, k) ∷ hs) = elim (Bool-cases (str_eq s sel && same_handler k h)) [
  | inl here ↦ rw here (bound-undelegate sel h hs)
  | inr other ↦ rw (other, other) (bound-undelegate sel h hs)
]

-- A handler stays bound when another one is taken off, from whatever selector.
bound-undelegate_other :
    (sel sel' : String) (hs : List (String × Handler))
    → bound sel ajax_form_creation_submit (undelegate sel' ajax_form_submit hs)
      ≡ bound sel ajax_form_creation_submit hs
unfolding bound undelegate
bound-undelegate_other sel sel' [] = refl
bound-undelegate_other sel sel' ((s, ajax_form_submit) ∷ hs) =
    ground (arith, bound-undelegate_other sel sel' hs)
bound-undelegate_other sel sel' ((s, ajax_form_creation_submit) ∷ hs) =
    ground (arith, bound-undelegate_other sel sel' hs)

module _ (to_utc_string : ℕ → Text) (now : ℕ) where
  -- After the answer RESEND_FORM a form of the class AJAXForm is sent by the browser, once and
  -- without another request, whichever handlers were bound.
  pub end_form_submit-submits :
      (form : AjaxForm) (s : Session)
      → ((end_form_submit to_utc_string now form (answered "RESEND_FORM") s).world.submits
          ≡ "form.AJAXForm" ∷ s.world.submits)
        × ((end_form_submit to_utc_string now form (answered "RESEND_FORM") s).world.posts
            ≡ s.world.posts)
  unfolding end_form_submit resubmit on_page submit
  end_form_submit-submits form s =
      rw (bound-undelegate "form.AJAXForm" ajax_form_submit s.handlers) (refl, refl)

  -- No completion of the creation form's request takes its handler off, also not the one that
  -- goes to the list of requests.
  pub end_creation_submit-bound :
      (form : AjaxForm) (c : Completion) (s : Session)
      → bound "form.AJAXCreationForm" ajax_form_creation_submit
          (end_creation_submit to_utc_string now form c s).handlers
        ≡ bound "form.AJAXCreationForm" ajax_form_creation_submit s.handlers
  unfolding end_creation_submit on_page deconnecter_click
  end_creation_submit-bound form failed s = refl
  end_creation_submit-bound form (answered data_) s = elim (Bool-cases (str_eq data_ "LOGOUT")) [
    | inl out ↦ rw out refl
    | inr stay ↦ elim (Bool-cases (reports_error data_)) [
      | inl wrong ↦ rw (stay, wrong) refl
      | inr right ↦ rw (stay, right) (bound-undelegate_other _ _ s.handlers)
    ]
  ]
