-- ===== src/Controls/Loaded.antt =====
-- What is loaded into the fields, and what the two filters let through.
use cidemis.Base.{
  String, ◌≡◌, refl, ap, ◌∙◌, true, Option, none, some, List, [], ◌∷◌, map, All, codes,
}
use cidemis.Browser.{World, Element, prop_checked, checked_of, first}
use cidemis.Controls.{
  Control, has_option, load_value, load_control, state_load_params, filtrertermine, filtrerarchive,
}

abbrev Offers : Option (List String) → String → Type 0
Offers none v = Unit
Offers (some os) v = has_option v os ≡ true

-- A field whose value is one of its options, if it has options.
abbrev IsChoice : Control → Type 0
IsChoice c = Offers c.options c.value

abbrev pub emptied : Control → Control
emptied c = record c { value = "" }

abbrev pub value_in : Control → String
value_in c = c.value

load_value-emptied :
    (o : Option (List String)) (c : Control)
    → Offers o c.value
    → load_value o c.value (emptied c) ≡ c
load_value-emptied none c h = refl
load_value-emptied (some os) c h = rw h refl

-- When the page opens again with empty fields, and the library has saved as searches what the
-- fields held, the fields hold it again, where the value of each select is one of its options.
state_load_params-emptied :
    (cs : List Control)
    → All IsChoice cs
    → state_load_params (map value_in cs) (map emptied cs) ≡ cs
unfolding state_load_params load_control
state_load_params-emptied [] h = refl
state_load_params-emptied (c ∷ cs) (h, hs) =
    ap (λ x. x ∷ state_load_params (map value_in cs) (map emptied cs))
      (load_value-emptied c.options c h)
    ∙ ap (λ xs. c ∷ xs) (state_load_params-emptied cs hs)

-- A `span` has no `checked`.
abbrev IsSpan : Element → Type 0
IsSpan e = e.checked ≡ none

prop_checked-none : (es : List Element) → All IsSpan es → checked_of (first es) ≡ none
prop_checked-none [] h = refl
prop_checked-none (e ∷ es) (h, hs) = h

-- On a page where `#divaffichertermine` and `#divafficherarchive` find spans, as they do on the page
-- of the table, both filters let every state through, whether the checkboxes in them are checked or
-- not.
pub filtrertermine-all :
    (w : World)
    → All IsSpan (w.elements "#divaffichertermine")
    → All IsSpan (w.elements "#divafficherarchive")
    → ((filtrertermine w).pattern ≡ codes ".*") × ((filtrerarchive w).pattern ≡ codes ".*")
unfolding filtrertermine filtrerarchive prop_checked
filtrertermine-all w h k = (
  rw (prop_checked-none (w.elements "#divaffichertermine") h) refl,
  rw (prop_checked-none (w.elements "#divafficherarchive") k) refl,
)
