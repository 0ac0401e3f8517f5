-- ===== src/Sending/Once.antt =====
-- How often a form is sent.
use package.text.Mathlib.Text.{◌==◌ as str_eq}
use package.text.Mathlib.TextEquality.{eq_iff}
use cidemis.Base.{
  ℕ, String, ◌≡◌, refl, true, false, Bool, some, none, List, [], ◌∷◌, Text, Bool-cases, inl, inr,
  if◌then◌else◌,
}
use cidemis.Base as Base
use cidemis.Browser.{Post, on, on_id, go_to}
use cidemis.Submit.{submit}
use cidemis.Sending.{
  Session, Completion, failed, answered, AjaxForm, ajax_form_submit, on_page, post, wait, release,
  start_form_submit, end_form_submit, resubmit, deconnecter_click, reports_error, ajax_form_handler,
  ajax_creation_handler, start_creation_submit, end_creation_submit, display_dom_loading_element,
  remove_dom_loading_element, disabled_form_buttons_element, enabled_form_buttons_element,
}
use cidemis.Sending.Bound.{bound-undelegate}

abbrev pub asks_again : Completion → Bool
asks_again failed = false
asks_again (answered data_) = str_eq data_ "RESEND_FORM"

-- The request of a form of the class AJAXForm.
abbrev pub form_post : AjaxForm → Post
form_post form = record {
  url = form.action;
  params = Base.◌++◌ form.fields (("ajax", some "true") ∷ []);
}

not_again : (data_ : String) → str_eq data_ "LOGOUT" ≡ true → str_eq data_ "RESEND_FORM" ≡ false
not_again data_ out = rw ((eq_iff data_ "LOGOUT").0 out) refl

abbrev pub creation_post : AjaxForm → Post
creation_post form = record { url = form.action; params = form.fields }

module _ (to_utc_string : ℕ → Text) (now : ℕ) where
  sent_once :
      (form : AjaxForm) (c : Completion) (s : Session)
      → let s' = ajax_form_handler to_utc_string now form c s in
        (s'.world.posts ≡ form_post form ∷ s.world.posts)
        × (s'.world.submits
            ≡ (if asks_again c then "form.AJAXForm" ∷ s.world.submits else s.world.submits))
  unfolding ajax_form_handler end_form_submit start_form_submit resubmit on_page post wait release
      submit deconnecter_click go_to on on_id display_dom_loading_element remove_dom_loading_element
      disabled_form_buttons_element enabled_form_buttons_element
  sent_once form failed s = (refl, refl)
  sent_once form (answered data_) s = elim (Bool-cases (str_eq data_ "LOGOUT")) [
    | inl out ↦ rw (out, not_again data_ out) (refl, refl)
    | inr stay ↦ elim (Bool-cases (str_eq data_ "RESEND_FORM")) [
      | inl again ↦
          rw (stay, again, bound-undelegate "form.AJAXForm" ajax_form_submit s.handlers)
            (refl, refl)
      | inr shown ↦ rw (stay, shown) (refl, refl)
    ]
  ]

  creation_sent_once :
      (form : AjaxForm) (c : Completion) (s : Session)
      → let s' = ajax_creation_handler to_utc_string now form c s in
        (s'.world.posts ≡ creation_post form ∷ s.world.posts) × (s'.world.submits ≡ s.world.submits)
  unfolding ajax_creation_handler end_creation_submit start_creation_submit on_page post wait
      release deconnecter_click go_to on on_id display_dom_loading_element
      remove_dom_loading_element disabled_form_buttons_element enabled_form_buttons_element
  creation_sent_once form failed s = (refl, refl)
  creation_sent_once form (answered data_) s = elim (Bool-cases (str_eq data_ "LOGOUT")) [
    | inl out ↦ rw out (refl, refl)
    | inr stay ↦ elim (Bool-cases (reports_error data_)) [
      | inl wrong ↦ rw (stay, wrong) (refl, refl)
      | inr right ↦ rw (stay, right) (refl, refl)
    ]
  ]

  -- The submission of a form of either class sends exactly one request, with the fields of the
  -- form (and ajax=true for the class AJAXForm), however the request ends; the browser sends the
  -- form itself, once, exactly if a form of the class AJAXForm is answered with RESEND_FORM.
  pub ajax_form_handler-posts :
      (form : AjaxForm) (c : Completion) (s : Session)
      → let s' = ajax_form_handler to_utc_string now form c s in
        let t = ajax_creation_handler to_utc_string now form c s in
        (s'.world.posts ≡ form_post form ∷ s.world.posts)
        × (s'.world.submits
            ≡ (if asks_again c then "form.AJAXForm" ∷ s.world.submits else s.world.submits))
        × (t.world.posts ≡ creation_post form ∷ s.world.posts)
        × (t.world.submits ≡ s.world.submits)
  ajax_form_handler-posts form c s =
      let (a, b) = sent_once form c s in let (d, e) = creation_sent_once form c s in (a, b, d, e)
