-- ===== src/Sending.antt =====
-- The forms that are sent by AJAX: `ajaxFormSubmit`, `ajaxFormCreationSubmit`, the message and the
-- buttons while they wait, and `deconnecterClick` (scripts.js). A request is asynchronous: each
-- handler is two functions, one up to the request and one for its completion.
pub mod Waiting
pub mod Bound
pub mod Once
mod Tests
use package.text.Mathlib.Text.{◌==◌ as str_eq}
use cidemis.Base.{
  ℕ, zero, suc, String, Bool, true, false, ◌&&◌, ◌||◌, Option, none, some, List, [], ◌∷◌, Text,
  codes, starts_with, if◌then◌else◌,
}
use cidemis.Base as Base
use cidemis.Browser.{
  World, Post, Element, on, on_id, set_html, set_style, set_disabled, show, go_to,
}
use cidemis.Service.{written, ◌++◌}
use cidemis.Submit.{submit}
use cidemis.Cookies.{set_cookie}

pub data Handler : Type 0 where
  ajax_form_creation_submit ajax_form_submit : Handler

abbrev pub same_handler : Handler → Handler → Bool
same_handler ajax_form_creation_submit ajax_form_creation_submit = true
same_handler ajax_form_submit ajax_form_submit = true
same_handler _ _ = false

-- The page, the submit handlers that `body` delegates to, and the texts that were assigned to
-- `document.cookie`, the latest first.
pub record Session : Type 0 where
  pub world : World
  pub handlers : List (String × Handler)
  pub cookies : List Text

-- What a request ends with.
pub data Completion : Type 0 where
  answered : String → Completion
  failed : Completion

unfoldable pub on_page : (World → World) → Session → Session
on_page f s = record s { world = f s.world }

-- The message while a form waits.
abbrev message_html : String → String
message_html message = "<span class=\"blink\">" ++ message ++ "</span>"

unfoldable pub display_dom_loading_element : String → String → World → World
display_dom_loading_element sel message w =
    on_id sel
      (λ e.
        set_html (message_html message) (set_style "color" "red" (set_style "display" "block" e)))
      w

unfoldable pub remove_dom_loading_element : String → World → World
remove_dom_loading_element sel w = on_id sel (set_style "display" "none") w

-- A button is put out of use, or back into use, with a colour.
abbrev pub turn : Bool → String → Element → Element
turn b colour e = set_style "background" colour (set_disabled b e)

unfoldable pub disabled_form_buttons_element : World → World
disabled_form_buttons_element w = on_id "#tableauDeBordBouton" (turn true "#b94a48") (
    on_id "#rejeterBouton" (turn true "#b94a48") (
      on_id "#enregistrementBouton" (turn true "#b94a48") (
        on_id "#precisionsBouton" (turn true "#b94a48")
          (on_id "#validationBouton" (turn true "#b94a48") w))))

unfoldable pub enabled_form_buttons_element : World → World
enabled_form_buttons_element w = on_id "#tableauDeBordBouton" (turn false "#555555") (
    on_id "#rejeterBouton" (turn false "#7cb81c") (
      on_id "#enregistrementBouton" (turn false "#555555") (
        on_id "#precisionsBouton" (turn false "#7cb81c")
          (on_id "#validationBouton" (turn false "#7cb81c") w))))

unfoldable pub wait : String → World → World
wait message w = disabled_form_buttons_element (display_dom_loading_element "#myDIV" message w)

unfoldable pub release : World → World
release w = enabled_form_buttons_element (remove_dom_loading_element "#myDIV" w)

-- `$('body').undelegate(sel, 'submit', handler)`
unfoldable pub undelegate : String → Handler → List (String × Handler) → List (String × Handler)
undelegate sel h [] = []
undelegate sel h ((s, k) ∷ hs) =
    let rest = undelegate sel h hs in
    if str_eq s sel && same_handler k h then rest else (s, k) ∷ rest

unfoldable pub bound : String → Handler → List (String × Handler) → Bool
bound sel h [] = false
bound sel h ((s, k) ∷ hs) = (str_eq s sel && same_handler k h) || bound sel h hs

-- A form as its handler reads it.
pub record AjaxForm : Type 0 where
  pub action : String
  pub popupid : Option String
  pub fields : List (String × Option String)

unfoldable pub post : String → List (String × Option String) → World → World
post url params w = record w { posts = record { url = url; params = params } ∷ w.posts }

-- An answer is shown in the popup that the form names.
abbrev pub show_answer : String → String → World → World
show_answer popupid data_ w =
    on ("#" ++ popupid) show (on ("#" ++ popupid ++ " .popupcontent") (set_html data_) w)

-- `form.getAttribute('popupid')`, where a missing attribute is `null`.
abbrev pub name_or_null : Option String → String
name_or_null none = "null"
name_or_null (some id) = id

-- `ajaxFormSubmit` up to its request.
unfoldable pub start_form_submit : AjaxForm → Session → Session
start_form_submit form s =
    on_page
      (λ w.
        post form.action (Base.◌++◌ form.fields (("ajax", some "true") ∷ []))
          (wait "Contrôle de la notice en cours, veuillez patienter" w))
      s

-- `form.submit()`: the handler runs if it is still bound; otherwise the browser sends the form.
unfoldable pub resubmit : AjaxForm → Session → Session
resubmit form s =
    if bound "form.AJAXForm" ajax_form_submit s.handlers
    then start_form_submit form s
    else on_page (submit "form.AJAXForm") s

-- `ajaxFormCreationSubmit` up to its request: the fields of `#creation-demande` are sent as they are.
unfoldable pub start_creation_submit : AjaxForm → Session → Session
start_creation_submit form s =
    on_page
      (λ w.
        post form.action form.fields
          (wait "Vérification des informations en cours, veuillez patienter..." w))
      s

unfoldable pub index_of : Text → Text → Option ℕ
index_of p [] = if starts_with p [] then some 0 else none
index_of p (c ∷ s) =
    let rest = index_of p s in
    if starts_with p (c ∷ s) then some 0 else elim rest [ none ↦ none | some n ↦ some (suc n) ]

-- `data.indexOf(p) > 0`
abbrev after_start : Option ℕ → Bool
after_start none = false
after_start (some zero) = false
after_start (some (suc n)) = true

abbrev pub reports_error : String → Bool
reports_error data_ = after_start (index_of (codes "popuperreurnotice") (codes data_))

-- `to_utc_string` prints a time, and `now` is the time in milliseconds.
module _ (to_utc_string : ℕ → Text) (now : ℕ) where
  abbrev forget : String → Session → Session
  forget name s = record s {
    cookies = set_cookie to_utc_string now (codes name) (codes "false") 1 ∷ s.cookies;
  }

  unfoldable pub deconnecter_click : Session → Session
  deconnecter_click s = on_page (go_to "logout") (
      forget "jsSessionCookieKeepDisplayedDemandesArchived"
        (forget "jsSessionCookieKeepDisplayedDemandesDone" s))

  -- The completion of `ajaxFormSubmit`.
  unfoldable pub end_form_submit : AjaxForm → Completion → Session → Session
  end_form_submit form failed s = on_page release s
  end_form_submit form (answered data_) s =
      if str_eq data_ "LOGOUT"
      then deconnecter_click (on_page release s)
      else if str_eq data_ "RESEND_FORM"
      then resubmit form
          (record s { handlers = undelegate "form.AJAXForm" ajax_form_submit s.handlers })
      else on_page (λ w. show_answer (written form.popupid) data_ (release w)) s

  -- The completion of `ajaxFormCreationSubmit`.
  unfoldable pub end_creation_submit : AjaxForm → Completion → Session → Session
  end_creation_submit form failed s = on_page release s
  end_creation_submit form (answered data_) s =
      if str_eq data_ "LOGOUT"
      then deconnecter_click (on_page release s)
      else if reports_error data_
      then on_page (λ w. show_answer (name_or_null form.popupid) data_ (release w)) s
      else on_page (go_to "liste-demandes")
          (record s { handlers = undelegate "form.AJAXCreationForm" ajax_form_submit s.handlers })

  -- `ajaxFormSubmit` and `ajaxFormCreationSubmit` with the completion of their requests, where nothing
  -- happens on the page in between.
  unfoldable pub ajax_form_handler : AjaxForm → Completion → Session → Session
  unfolding start_form_submit
  ajax_form_handler form c s = end_form_submit form c (start_form_submit form s)

  unfoldable pub ajax_creation_handler : AjaxForm → Completion → Session → Session
  unfolding start_creation_submit
  ajax_creation_handler form c s = end_creation_submit form c (start_creation_submit form s)
