-- ===== src/Submit/Sends.antt =====
-- When a form is sent, and what it holds then.
use package.text.Mathlib.Text.{◌==◌ as str_eq}
use cidemis.Base.{
  ◌≡◌, refl, ap, ◌∙◌, String, Bool, true, false, ◌&&◌, Option, none, some, ◌∷◌, if◌then◌else◌,
  Bool-cases, inl, inr, ap₂,
}
use cidemis.Browser.{
  Element, World, Outside, is, val, size, on, ask, member, ajax, Reply, success, failure,
}
use cidemis.Browser.Laws.{SameInputs, SameInputs-refl, ask-SameInputs}
use cidemis.Service.{Answer, truthy, popup_result, ajax_popup, popup_body}
use cidemis.Hints.{clear_blur_text, each_hinted}
use cidemis.Form.{verifdemande, file_total}
use cidemis.Form.Verdict.{
  form_ok, verifdemande-form_ok, verifdemande-SameInputs, form_ok-SameInputs,
}
use cidemis.Submit.{
  Target, clicked, notice_demande_post, verifnoticedemande, submit, send, confirm_button,
  send_checked, send_green, actiondemande,
}

send_submits :
    (action filecount : Option String) (w : World)
    → (send action filecount w).submits ≡ "#creation-demande" ∷ w.submits
unfolding send submit clear_blur_text each_hinted on
send_submits action filecount w = refl

-- The answer to the last question lets the form go.
abbrev popup_passes : Reply → Bool
popup_passes (success body) = str_eq (popup_body body) ""
popup_passes failure = false

popup_result_passes : (r : Reply) (w : World) → truthy (popup_result r w).0 ≡ popup_passes r
popup_result_passes failure w = refl
popup_result_passes (success body) w = elim (Bool-cases (str_eq (popup_body body) "")) [
  | inl h ↦ rw h
  | inr h ↦ rw h
]

popup_result_submits : (r : Reply) (w : World) → (popup_result r w).1.submits ≡ w.submits
unfolding on
popup_result_submits failure w = refl
popup_result_submits (success body) w = elim (Bool-cases (str_eq (popup_body body) "")) [
  | inl h ↦ rw h
  | inr h ↦ rw h
]

ajax_popup_passes :
    (o : Outside) (num : Option String) (w : World)
    → truthy (verifnoticedemande o num w).0 ≡ popup_passes (o.reply (notice_demande_post num))
unfolding verifnoticedemande ajax_popup ajax
ajax_popup_passes o num w =
    popup_result_passes (o.reply (notice_demande_post num)) (ajax o (notice_demande_post num) w).1

ajax_popup_submits :
    (o : Outside) (num : Option String) (w : World)
    → (verifnoticedemande o num w).1.submits ≡ w.submits
unfolding verifnoticedemande ajax_popup ajax on
ajax_popup_submits o num w =
    popup_result_submits (o.reply (notice_demande_post num)) (ajax o (notice_demande_post num) w).1

abbrev pub checked : Outside → Option String → World → Bool
checked o action w =
    if is action "valider" && is (val w "#user_role") "2"
    then popup_passes (o.reply (notice_demande_post (val w "#id_demande")))
    else true

abbrev confirmed : Outside → Option String → Bool
confirmed o none = true
confirmed o (some m) = o.confirms m

-- A button that is not green sends the form as it is; a green one only if the user confirms, the
-- form is in order for its action, and no question about the record is left.
abbrev pub sends : Outside → Element → World → Bool
sends o el w =
    if member "green" el.classes
    then confirmed o (el.attrs "confirm")
      && (form_ok o (el.attrs "action") w && checked o (el.attrs "action") w)
    else true

send_checked_submits :
    (o : Outside) (action filecount : Option String) (w : World)
    → (send_checked o action filecount w).submits
      ≡ (if checked o action w then "#creation-demande" ∷ w.submits else w.submits)
unfolding send_checked
send_checked_submits o action filecount w =
    elim (Bool-cases (is action "valider" && is (val w "#user_role") "2")) [
      | inr plain ↦ rw plain (send_submits action filecount w)
      | inl asked ↦
          rw (asked, ← ajax_popup_passes o (val w "#id_demande") w)
            (asked_submits (verifnoticedemande o (val w "#id_demande") w)
              (ajax_popup_submits o _ w))
    ]
  where
    asked_submits :
        (r : Answer × World)
        → r.1.submits ≡ w.submits
        → (if truthy r.0 then send action filecount r.1 else r.1).submits
          ≡ (if truthy r.0 then "#creation-demande" ∷ w.submits else w.submits)
    asked_submits (a, w') e = elim (Bool-cases (truthy a)) [
      | inl h ↦ rw h (send_submits action filecount w' ∙ ap (◌∷◌ "#creation-demande") e)
      | inr h ↦ rw h e
    ]

-- A form that passes the checks is looked at again as it was.
checked-SameInputs :
    (o : Outside) (action : Option String) {w w' : World}
    → SameInputs w w'
    → checked o action w' ≡ checked o action w
checked-SameInputs o action s = simp (s.same_val)

send_green_submits :
    (o : Outside) (action filecount : Option String) (w : World)
    → (send_green o action filecount w).submits ≡ (
        if form_ok o action w && checked o action w
        then "#creation-demande" ∷ w.submits
        else w.submits)
unfolding send_green
send_green_submits o action filecount w =
    rw (← verifdemande-form_ok o action w)
      (after (verifdemande o action w) (verifdemande-SameInputs o action w))
  where
    after :
        (r : Bool × World)
        → SameInputs w r.1
        → (if r.0 then send_checked o action filecount r.1 else r.1).submits
          ≡ (if r.0 && checked o action w then "#creation-demande" ∷ w.submits else w.submits)
    after (true, w') s =
        send_checked_submits o action filecount w'
        ∙ ap₂ (λ b l. if b then "#creation-demande" ∷ l else l) (checked-SameInputs o action s)
            s.same_submits
    after (false, w') s = s.same_submits

confirm_button-SameInputs :
    (o : Outside) (c : Option String) (w : World) → SameInputs w (confirm_button o c w).1
confirm_button-SameInputs o none w = SameInputs-refl w
confirm_button-SameInputs o (some m) w = ask-SameInputs o m w

confirm_button_files :
    (o : Outside) (c : Option String) (w : World)
    → file_total (confirm_button o c w).1 ≡ file_total w
unfolding file_total ask size
confirm_button_files o none w = refl
confirm_button_files o (some m) w = refl

confirm_button_sure :
    (o : Outside) (c : Option String) (w : World) → (confirm_button o c w).0 ≡ confirmed o c
unfolding ask
confirm_button_sure o none w = refl
confirm_button_sure o (some m) w = refl

-- What a green button does, once the user has been asked.
green_submits :
    (o : Outside) (action filecount : Option String) (w : World) (r : Bool × World)
    → SameInputs w r.1
    → file_total r.1 ≡ file_total w
    → (if r.0 then send_green o action filecount r.1 else r.1).submits ≡ (
        if r.0 && (form_ok o action w && checked o action w)
        then "#creation-demande" ∷ w.submits
        else w.submits)
green_submits o action filecount w (true, w') s e =
    send_green_submits o action filecount w'
    ∙ ap₂ (λ b l. if b then "#creation-demande" ∷ l else l)
        (ap₂ ◌&&◌ (form_ok-SameInputs o action s e) (checked-SameInputs o action s)) s.same_submits
green_submits o action filecount w (false, w') s e = s.same_submits

-- A click on a button of the form submits it once if the button is not green, or if the user
-- confirms (where the button asks), the form is in order for the action and (for a validation by
-- role 2) the last question is answered by an empty text; in every other case nothing is
-- submitted.
pub actiondemande-sends :
    (o : Outside) (filecount : Option String) (t : Target) (w : World)
    → (actiondemande o filecount t w).submits
      ≡ (if sends o (clicked t) w then "#creation-demande" ∷ w.submits else w.submits)
unfolding actiondemande
actiondemande-sends o filecount t w = elim (Bool-cases (member "green" (clicked t).classes)) [
  | inr plain ↦ rw plain (send_submits _ filecount w)
  | inl green ↦
      let c = (clicked t).attrs "confirm" in
      rw (green, ← confirm_button_sure o c w)
        (green_submits o ((clicked t).attrs "action") filecount w (confirm_button o c w)
          (confirm_button-SameInputs o c w) (confirm_button_files o c w))
]
