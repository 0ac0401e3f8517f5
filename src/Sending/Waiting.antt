-- ===== src/Sending/Waiting.antt =====
-- The message and the buttons of a form while its request runs, and after it.
use package.text.Mathlib.Text.{◌==◌ as str_eq}
use package.text.Mathlib.TextEquality.{eq_iff}
use cidemis.Base.{
  some, ℕ, String, ◌≡◌, refl, ap, ◌∙◌, inl, inr, ◌⊎◌, arith, Bool, true, false, List, [], ◌∷◌, map,
  Text, All, if◌then◌else◌, Bool-cases,
}
use cidemis.Base as Base
use cidemis.Browser.{
  World, Element, on, on_id, at_first, set_html, set_style, set_disabled, show, go_to,
}
use cidemis.Service.{written}
use cidemis.Sending.{
  Session, Completion, failed, answered, AjaxForm, turn, display_dom_loading_element,
  remove_dom_loading_element, disabled_form_buttons_element, enabled_form_buttons_element, wait,
  release, on_page, post, start_form_submit, end_form_submit, end_creation_submit,
  deconnecter_click, show_answer, name_or_null, reports_error,
}

-- What holds of the element that an id finds, if there is one.
abbrev pub First : (Element → Type 0) → List Element → Type 0
First P [] = Unit
First P (e ∷ _) = P e

abbrev pub IsDisabled : Bool → World → String → Type 0
IsDisabled b w sel = First (λ e. e.disabled ≡ b) (w.elements sel)

abbrev IsDisplayed : String → World → Type 0
IsDisplayed how w = First (λ e. e.style "display" ≡ some how) (w.elements "#myDIV")

abbrev form_buttons : List String
form_buttons =
    "#validationBouton" ∷ "#precisionsBouton" ∷ "#enregistrementBouton" ∷ "#rejeterBouton"
    ∷ "#tableauDeBordBouton" ∷ []

-- The form waits: the message is shown, and no button can be used.
abbrev pub IsWaiting : World → Type 0
IsWaiting w = IsDisplayed "block" w × All (IsDisabled true w) form_buttons

-- The form can be used: the message is hidden, and every button can be used.
abbrev pub IsUsable : World → Type 0
IsUsable w = IsDisplayed "none" w × All (IsDisabled false w) form_buttons

pub First-at_first :
    (P : Element → Type 0) (f : Element → Element) (es : List Element)
    → ((e : Element) → P (f e))
    → First P (at_first f es)
First-at_first P f [] h = tt
First-at_first P f (e ∷ es) h = h e

turned :
    (b : Bool) (colour : String) (es : List Element)
    → First (λ e. e.disabled ≡ b) (at_first (turn b colour) es)
unfolding set_style set_disabled
turned b colour es = First-at_first (λ e. e.disabled ≡ b) (turn b colour) es (λ e. refl)

release-IsUsable : (w : World) → IsUsable (release w)
unfolding release enabled_form_buttons_element remove_dom_loading_element on_id set_style
    set_disabled
release-IsUsable w = (
  First-at_first (λ e. e.style "display" ≡ some "none") (set_style "display" "none")
      (w.elements "#myDIV") (λ e. refl),
  (
    turned false "#7cb81c" (w.elements "#validationBouton"),
    (
      turned false "#7cb81c" (w.elements "#precisionsBouton"),
      (
        turned false "#555555" (w.elements "#enregistrementBouton"),
        (
          turned false "#7cb81c" (w.elements "#rejeterBouton"),
          (turned false "#555555" (w.elements "#tableauDeBordBouton"), tt),
        ),
      ),
    ),
  ),
)

wait-IsWaiting : (message : String) (w : World) → IsWaiting (wait message w)
unfolding wait disabled_form_buttons_element display_dom_loading_element on_id set_html set_style
    set_disabled
wait-IsWaiting message w = (
  First-at_first (λ e. e.style "display" ≡ some "block") _ (w.elements "#myDIV") (λ e. refl),
  (
    turned true "#b94a48" (w.elements "#validationBouton"),
    (
      turned true "#b94a48" (w.elements "#precisionsBouton"),
      (
        turned true "#b94a48" (w.elements "#enregistrementBouton"),
        (
          turned true "#b94a48" (w.elements "#rejeterBouton"),
          (turned true "#b94a48" (w.elements "#tableauDeBordBouton"), tt),
        ),
      ),
    ),
  ),
)

-- A change of what the elements show leaves the buttons and the message as they are.
module _ (f : Element → Element) (P : Element → Type 0) (k : (e : Element) → P e → P (f e)) where
  First-map_if : (b : Bool) (es : List Element) → First P es → First P (if b then map f es else es)
  First-map_if true [] h = tt
  First-map_if true (e ∷ es) h = k e h
  First-map_if false es h = h

module _ (f : Element → Element) (d : (e : Element) → (f e).disabled ≡ e.disabled)
    (y : (e : Element) → (f e).style "display" ≡ e.style "display") where
  on-IsDisabled :
      (sel s : String) (w : World) → IsDisabled false w s → IsDisabled false (on sel f w) s
  unfolding on
  on-IsDisabled sel s w =
      First-map_if f (λ e. e.disabled ≡ false) (λ e q. d e ∙ q) (str_eq s sel) (w.elements s)

  on-IsUsable : (sel : String) (w : World) → IsUsable w → IsUsable (on sel f w)
  unfolding on
  on-IsUsable sel w (m, (a, (b, (c, (g, (h, _)))))) = (
    First-map_if f (λ e. e.style "display" ≡ some "none") (λ e q. y e ∙ q) (str_eq "#myDIV" sel)
        (w.elements "#myDIV") m,
    (
      on-IsDisabled sel "#validationBouton" w a,
      (
        on-IsDisabled sel "#precisionsBouton" w b,
        (
          on-IsDisabled sel "#enregistrementBouton" w c,
          (
            on-IsDisabled sel "#rejeterBouton" w g,
            (on-IsDisabled sel "#tableauDeBordBouton" w h, tt),
          ),
        ),
      ),
    ),
  )

show_answer-IsUsable :
    (id data_ : String) (w : World) → IsUsable w → IsUsable (show_answer id data_ w)
unfolding show set_html
show_answer-IsUsable id data_ w u =
    on-IsUsable show (λ e. refl) (λ e. refl) _ _
      (on-IsUsable (set_html data_) (λ e. refl) (λ e. refl) _ w u)

-- When a form of the class AJAXForm is submitted, its fields and ajax=true are sent to its action
-- in one request, and from then on the message is shown and no button can be used.
pub start_form_submit-IsWaiting :
    (form : AjaxForm) (s : Session)
    → IsWaiting (start_form_submit form s).world
      × ((start_form_submit form s).world.posts
          ≡ record {
            url = form.action;
            params = Base.◌++◌ form.fields (("ajax", some "true") ∷ []);
          }
            ∷ s.world.posts)
unfolding start_form_submit on_page post wait disabled_form_buttons_element
    display_dom_loading_element on_id
start_form_submit-IsWaiting form s =
    (wait-IsWaiting "Contrôle de la notice en cours, veuillez patienter" s.world, refl)

module _ (to_utc_string : ℕ → Text) (now : ℕ) where
  deconnecter_click-IsUsable :
      (s : Session) → IsUsable s.world → IsUsable (deconnecter_click to_utc_string now s).world
  unfolding deconnecter_click on_page go_to
  deconnecter_click-IsUsable s u = u

  -- However the request of a form of the class AJAXForm ends, with an answer or without one, the
  -- message is hidden and every button can be used again, or the answer was RESEND_FORM.
  pub end_form_submit-IsUsable :
      (form : AjaxForm) (c : Completion) (s : Session)
      → IsUsable (end_form_submit to_utc_string now form c s).world ⊎ (c ≡ answered "RESEND_FORM")
  unfolding end_form_submit on_page
  end_form_submit-IsUsable form failed s = inl (release-IsUsable s.world)
  end_form_submit-IsUsable form (answered data_) s = elim (Bool-cases (str_eq data_ "LOGOUT")) [
    | inl out ↦ inl (rw out (deconnecter_click-IsUsable _ (release-IsUsable s.world)))
    | inr stay ↦ elim (Bool-cases (str_eq data_ "RESEND_FORM")) [
      | inl again ↦ inr (ap answered (ground (arith, eq_iff data_ "RESEND_FORM")))
      | inr done ↦ inl (
          rw (stay, done)
            (show_answer-IsUsable (written form.popupid) data_ _ (release-IsUsable s.world)))
    ]
  ]

  -- However the request of the creation form ends, with an answer or without one, the message is
  -- hidden and every button can be used again, or the page goes to the list of requests.
  pub end_creation_submit-IsUsable :
      (form : AjaxForm) (c : Completion) (s : Session)
      → IsUsable (end_creation_submit to_utc_string now form c s).world
        ⊎ ((end_creation_submit to_utc_string now form c s).world.location
            ≡ "liste-demandes" ∷ s.world.location)
  unfolding end_creation_submit on_page go_to
  end_creation_submit-IsUsable form failed s = inl (release-IsUsable s.world)
  end_creation_submit-IsUsable form (answered data_) s = elim (Bool-cases (str_eq data_ "LOGOUT")) [
    | inl out ↦ inl (rw out (deconnecter_click-IsUsable _ (release-IsUsable s.world)))
    | inr stay ↦ elim (Bool-cases (reports_error data_)) [
      | inl wrong ↦ inl (
          rw (stay, wrong)
            (show_answer-IsUsable (name_or_null form.popupid) data_ _ (release-IsUsable s.world)))
      | inr right ↦ inr (rw (stay, right) refl)
    ]
  ]
