-- ===== src/Hints/Laws.antt =====
-- The hint is never sent, and comes back when a field is left empty.
use package.text.Mathlib.TextEquality.{eq_iff}
use package.text.Mathlib.TextPositions.{eq_refl}
use mathlib.Core.Bool.{false≢true}
use cidemis.Base.{
  ap, sym, ◌∙◌, String, ◌≡◌, ◌≢◌, refl, true, false, Option, none, some, arith, Bool-cases, inl,
  inr,
}
use cidemis.Browser.{Element, opt_eq}
use cidemis.Hints.{put_value, clear_hint, clear_text_on_focus, add_text_on_blur}

-- A field shows its hint.
abbrev ShowsHint : Element → Type 0
ShowsHint e = (h : String) × (e.attrs "blurText" ≡ some h) × (e.value ≡ some h) × (h ≢ "")

opt_eq-eq : (a b : Option String) → opt_eq a b ≡ true → a ≡ b
opt_eq-eq none none h = refl
opt_eq-eq none (some b) h = cc
opt_eq-eq (some a) none h = cc
opt_eq-eq (some a) (some b) h = ground (arith, eq_iff a b)

some_cancel : (a b : String) → some a ≡ some b → a ≡ b
some_cancel a b e = cc

opt_eq_refl : (a : Option String) → opt_eq a a ≡ true
opt_eq_refl none = refl
opt_eq_refl (some a) = eq_refl a

opt_eq_ne : (a b : Option String) → a ≢ b → opt_eq a b ≡ false
opt_eq_ne a b ne = elim (Bool-cases (opt_eq a b)) [
  | inl h ↦ absurd (ne (opt_eq-eq a b h))
  | inr h ↦ h
]

-- No field of the page shows its hint any more.
pub clear_hint_clears :
    (e : Element) (h : String)
    → e.attrs "blurText" ≡ some h
    → h ≢ ""
    → (clear_hint e).value ≢ some h
unfolding clear_hint
clear_hint_clears e h a ne k = elim (Bool-cases (opt_eq (e.attrs "blurText") e.value)) [
  | inl same ↦ ne (some_cancel h "" (sym (rw same at k)))
  | inr other ↦ false≢true (
      sym other
      ∙ ap (opt_eq (e.attrs "blurText")) (rw other at k)
      ∙ ap (λ x. opt_eq x (some h)) a
      ∙ opt_eq_refl (some h))
]

clear_hint_keeps : (e : Element) → e.value ≢ e.attrs "blurText" → clear_hint e ≡ e
unfolding clear_hint
clear_hint_keeps e ne = rw (opt_eq_ne _ _ (λ h. ne (sym h)))

-- A field that shows its hint shows it again after it is entered and left.
pub add_text_on_blur-clear_text_on_focus :
    (e : Element) (h : String)
    → e.attrs "blurText" ≡ some h
    → e.value ≡ some h
    → (add_text_on_blur (clear_text_on_focus e)).value ≡ e.value
unfolding add_text_on_blur clear_text_on_focus put_value
add_text_on_blur-clear_text_on_focus e h a v = ground (arith, opt_eq_refl (some h))

-- A field whose value is neither empty nor its hint is left as it is by `clearTextOnFocus`, by
-- `addTextOnBlur` and by the clearing before a submission.
pub focus_blur_keeps :
    (e : Element) (v : String)
    → e.value ≡ some v
    → v ≢ ""
    → e.attrs "blurText" ≢ some v
    → (clear_text_on_focus e ≡ e) × (add_text_on_blur e ≡ e) × (clear_hint e ≡ e)
unfolding add_text_on_blur clear_text_on_focus clear_hint
focus_blur_keeps e v a ne nh = (
  rw (opt_eq_ne _ _ (λ h. nh (sym h ∙ a))),
  rw (opt_eq_ne _ _ (λ h. ne (some_cancel v "" (sym a ∙ h)))),
  clear_hint_keeps e (λ h. nh (sym h ∙ a)),
)
