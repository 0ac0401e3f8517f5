-- ===== src/Profiles/Server.antt =====
-- What the server is told of the panel.
use package.text.Mathlib.Text.{◌==◌ as str_eq}
use package.text.Mathlib.TextEquality.{eq_iff}
use mathlib.Core.Path.{subst}
use cidemis.Base.{
  ℕ, String, ◌≡◌, ◌≢◌, refl, sym, ap, ◌∙◌, true, false, Option, none, some, List, [], ◌∷◌,
  if◌then◌else◌, Bool-cases, Option-cases, inl, inr,
}
use cidemis.Browser.{Post}
use cidemis.Sending.{post}
use cidemis.Profiles.{
  Profil, Panel, DragEvent, started, ended, entered, left, over, dropped, handle, dragstart,
  dragend, dragenter, dragleave, drop, drop_on, profil_at, update_user_profil, append_to,
}
use cidemis.Profiles.Places.{
  place, place-fade, place-paint, place-append_to_other, place-append_to_self, place-on_panel,
  on_panel,
}

-- The profile that a request names for a user.
abbrev named : String → List (String × Option String) → Option String
named v ((_, some u) ∷ ((_, some profil) ∷ [])) = if str_eq u v then some profil else none
named v _ = none

abbrev or_else : Option String → Option String → Option String
or_else none b = b
or_else (some a) b = some a

-- The profile of a user after the requests, the latest first.
abbrev pub told : String → List Post → Option String → Option String
told v [] start = start
told v (p ∷ ps) start = or_else (named v p.params) (told v ps start)

abbrev pub run : List DragEvent → Panel → Panel
run [] b = b
run (e ∷ es) b = run es (handle e b)

told-some : (v a : String) (ps : List Post) → (c : String) × (told v ps (some a) ≡ some c)
told-some v a [] = (a, refl)
told-some v a (p ∷ ps) = elim (Option-cases (named v p.params)) [
  | inl silent ↦ rw silent (told-some v a ps)
  | inr (c, h) ↦ (c, rw h refl)
]

false-ne-true : false ≢ true
false-ne-true e = cc

-- The panel shows a user where the server was told.
module _ (v a : String) where
  abbrev Agrees : Panel → Type 0
  Agrees b = place v b.profils ≡ told v b.world.posts (some a)

  drop_on-Agrees :
      (i : ℕ) (b : Panel) (p : Profil)
      → profil_at i b.profils ≡ some p
      → Agrees b
      → Agrees (drop_on (some p) i b)
  unfolding drop_on update_user_profil post
  drop_on-Agrees i b p e h =
      place-paint v "solid 1px #555" "white" i (append_to i b.transfer b.profils)
      ∙ elim (Bool-cases (str_eq b.transfer v)) [
        | inl same_user ↦
            let e' : v ≡ b.transfer = sym ((eq_iff b.transfer v).0 same_user) in
            let (c, s) = told-some v a b.world.posts in
            let shown : on_panel v b.profils ≡ true = place-on_panel v c b.profils (h ∙ s) in
            rw same_user (
              subst (λ u. place v (append_to i u b.profils) ≡ some p.name) e'
                (place-append_to_self v i b.profils p shown e))
        | inr other ↦ rw other (
            place-append_to_other b.transfer v
              (λ q. false-ne-true (sym other ∙ (eq_iff b.transfer v).1 q)) i b.profils
            ∙ h)
      ]

  drop-Agrees : (i : ℕ) (b : Panel) → Agrees b → Agrees (drop i b)
  unfolding drop drop_on
  drop-Agrees i b h = elim (Option-cases (profil_at i b.profils)) [
    | inl nowhere ↦ rw nowhere h
    | inr (p, e) ↦ rw e (drop_on-Agrees i b p e h)
  ]

  handle-Agrees : (e : DragEvent) (b : Panel) → Agrees b → Agrees (handle e b)
  unfolding handle dragstart dragend dragenter dragleave
  handle-Agrees (started u) b h = place-fade u v "0.5" b.profils ∙ h
  handle-Agrees (ended u) b h = place-fade u v "1" b.profils ∙ h
  handle-Agrees (entered i) b h = place-paint v "solid 2px #166dae" "lightgrey" i b.profils ∙ h
  handle-Agrees (left i) b h = place-paint v "solid 1px #555" "white" i b.profils ∙ h
  handle-Agrees (over i) b h = h
  handle-Agrees (dropped i) b h = drop-Agrees i b h

  run-Agrees : (es : List DragEvent) (b : Panel) → Agrees b → Agrees (run es b)
  run-Agrees [] b h = h
  run-Agrees (e ∷ es) b h = run-Agrees es (handle e b) (handle-Agrees e b h)

-- For a user who stands in a profile when the page opens, before any request, after any drags and
-- drops the panel shows the user in the profile that the latest request for this user names, and
-- where the user was if there is none.
pub run-told :
    (v a : String) (es : List DragEvent) (b : Panel)
    → b.world.posts ≡ []
    → place v b.profils ≡ some a
    → place v (run es b).profils ≡ told v (run es b).world.posts (some a)
run-told v a es b none_yet h =
    run-Agrees v a es b (h ∙ ap (λ ps. told v ps (some a)) (sym none_yet))
