-- ===== src/Browser/Laws.antt =====
-- What a write to the page leaves alone.
use text.Mathlib.Text.{◌==◌ as str_eq}
use cidemis.Base.{
  suc, String, ◌≡◌, refl, ap, inl, inr, Bool, true, false, List, [], ◌∷◌, map, length,
  if◌then◌else◌, Bool-cases, ◌∙◌,
}
use cidemis.Browser.{
  Element, World, val, attr, size, on, add_class, set_html, show, hide, member, value_of, attr_of,
  first, Outside, Post, ajax, ask,
}

-- The two worlds show the same form: values, attributes and numbers of elements; and none of its
-- forms was submitted in between.
pub record SameInputs (w w' : World) : Type 0 where
  pub same_val : (sel : String) → val w' sel ≡ val w sel
  pub same_attr : (sel name : String) → attr w' sel name ≡ attr w sel name
  pub same_size : (sel : String) → size w' sel ≡ size w sel
  pub same_submits : w'.submits ≡ w.submits

pub SameInputs-refl : (w : World) → SameInputs w w
SameInputs-refl w = record {
  same_val = λ sel. refl;
  same_attr = λ sel name. refl;
  same_size = λ sel. refl;
  same_submits = refl;
}

pub SameInputs-trans : {u v w : World} → SameInputs u v → SameInputs v w → SameInputs u w
SameInputs-trans p q = record {
  same_val = λ sel. q.same_val sel ∙ p.same_val sel;
  same_attr = λ sel name. q.same_attr sel name ∙ p.same_attr sel name;
  same_size = λ sel. q.same_size sel ∙ p.same_size sel;
  same_submits = q.same_submits ∙ p.same_submits;
}

-- A change that keeps an element's value and attributes.
pub record KeepsInputs (f : Element → Element) : Type 0 where
  keeps_value : (e : Element) → (f e).value ≡ e.value
  keeps_attrs : (e : Element) (name : String) → (f e).attrs name ≡ e.attrs name

pub add_class-KeepsInputs : (c : String) → KeepsInputs (add_class c)
unfolding add_class
add_class-KeepsInputs c = record {
  keeps_value = λ e. elim (Bool-cases (member c e.classes)) [ inl h ↦ rw h | inr h ↦ rw h ];
  keeps_attrs = λ e name. elim (Bool-cases (member c e.classes)) [ inl h ↦ rw h | inr h ↦ rw h ];
}

pub set_html-KeepsInputs : (h : String) → KeepsInputs (set_html h)
unfolding set_html
set_html-KeepsInputs h = record { keeps_value = λ e. refl; keeps_attrs = λ e name. refl }

pub show-KeepsInputs : KeepsInputs show
unfolding show
show-KeepsInputs = record { keeps_value = λ e. refl; keeps_attrs = λ e name. refl }

pub hide-KeepsInputs : KeepsInputs hide
unfolding hide
hide-KeepsInputs = record { keeps_value = λ e. refl; keeps_attrs = λ e name. refl }

-- A choice between a list and its image reads like the list.
module _ (f : Element → Element) (k : KeepsInputs f) where
  value_of-map :
      (b : Bool) (es : List Element)
      → value_of (first (if b then map f es else es)) ≡ value_of (first es)
  value_of-map true [] = refl
  value_of-map true (e ∷ es) = k.keeps_value e
  value_of-map false es = refl

  attr_of-map :
      (name : String) (b : Bool) (es : List Element)
      → attr_of name (first (if b then map f es else es)) ≡ attr_of name (first es)
  attr_of-map name true [] = refl
  attr_of-map name true (e ∷ es) = k.keeps_attrs e name
  attr_of-map name false es = refl

length-map_if :
    (f : Element → Element) (b : Bool) (es : List Element)
    → length (if b then map f es else es) ≡ length es
length-map_if f true [] = refl
length-map_if f true (e ∷ es) = ap suc (length-map_if f true es)
length-map_if f false es = refl

pub on-SameInputs :
    (sel : String) (f : Element → Element) (w : World) → KeepsInputs f → SameInputs w (on sel f w)
unfolding on val attr size
on-SameInputs sel f w k = record {
  same_val = λ s. value_of-map f k (str_eq s sel) (w.elements s);
  same_attr = λ s name. attr_of-map f k name (str_eq s sel) (w.elements s);
  same_size = λ s. length-map_if f (str_eq s sel) (w.elements s);
  same_submits = refl;
}

pub ajax-SameInputs : (o : Outside) (p : Post) (w : World) → SameInputs w (ajax o p w).1
unfolding ajax val attr size
ajax-SameInputs o p w = record {
  same_val = λ s. refl;
  same_attr = λ s name. refl;
  same_size = λ s. refl;
  same_submits = refl;
}

pub ask-SameInputs : (o : Outside) (m : String) (w : World) → SameInputs w (ask o m w).1
unfolding ask val attr size
ask-SameInputs o m w = record {
  same_val = λ s. refl;
  same_attr = λ s name. refl;
  same_size = λ s. refl;
  same_submits = refl;
}
