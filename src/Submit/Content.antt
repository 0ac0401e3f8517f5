-- ===== src/Submit/Content.antt =====
-- What a form holds when it is sent.
use cidemis.Base.{
  ◌≡◌, ◌≢◌, refl, sym, ◌∙◌, String, Bool, true, false, not, Option, none, some, List, [], ◌∷◌,
  if◌then◌else◌, Bool-cases, inl, inr, All, map,
}
use cidemis.Browser.{Element, World, opt_eq, set_value}
use cidemis.Hints.{is_hinted, each_hinted, clear_hint, clear_blur_text}
use cidemis.Hints.Laws.{clear_hint_clears}
use cidemis.Submit.{submit, send}

-- An element does not hold its own hint.
abbrev pub HidesHint : Element → Type 0
HidesHint e = (h : String) → e.attrs "blurText" ≡ some h → h ≢ "" → e.value ≢ some h

clear_hint_attrs : (e : Element) → (clear_hint e).attrs "blurText" ≡ e.attrs "blurText"
unfolding clear_hint set_value
clear_hint_attrs e = elim (Bool-cases (opt_eq (e.attrs "blurText") e.value)) [
  | inl h ↦ rw h
  | inr h ↦ rw h
]

not_hinted : (v : Option String) (h : String) → not (opt_eq v none) ≡ false → v ≢ some h
not_hinted none h e k = cc
not_hinted (some v) h e k = cc

clear_one : (e : Element) (b : Bool) → is_hinted e ≡ b → HidesHint (if b then clear_hint e else e)
clear_one e true i h a ne = clear_hint_clears e h (sym (clear_hint_attrs e) ∙ a) ne
clear_one e false i h a ne = absurd (not_hinted (e.attrs "blurText") h i a)

clear-All :
    (es : List Element) → All HidesHint (map (λ e. if is_hinted e then clear_hint e else e) es)
clear-All [] = tt
clear-All (e ∷ es) = (clear_one e (is_hinted e) refl, clear-All es)

pub send-HidesHint :
    (action filecount : Option String) (w : World) (sel : String)
    → All HidesHint ((send action filecount w).elements sel)
unfolding send submit clear_blur_text each_hinted
send-HidesHint action filecount w sel = clear-All _
