-- ===== src/Selection/Clicks.antt =====
-- Which rows are selected after clicks.
use package.text.Mathlib.Text.{◌==◌ as str_eq}
use package.text.Mathlib.TextEquality.{eq_iff}
use cidemis.Base.{
  ℕ, zero, suc, ◌<◌, String, ◌≡◌, refl, ap, ◌∙◌, Bool, true, false, not, ◌&&◌, List, [], ◌∷◌, ◌++◌,
  length, Bool-cases, inl, inr, if◌then◌else◌, arith, ◌==◌,
}
use cidemis.Browser.{Element, member, drop_class, add_class, remove_class}
use cidemis.Selection.{
  TableRow, toggle_class, toggle_row, select_demande, deselect_row, deselect_all, is_selected,
}

member-drop_class : (c : String) (cs : List String) → member c (drop_class c cs) ≡ false
member-drop_class c [] = refl
member-drop_class c (d ∷ cs) = elim (Bool-cases (str_eq d c)) [
  | inl here ↦ rw here (member-drop_class c cs)
  | inr other ↦ rw (other, other) (member-drop_class c cs)
]

member-snoc : (c : String) (cs : List String) → member c (cs ++ c ∷ []) ≡ true
member-snoc c [] = ground (arith, eq_iff c c)
member-snoc c (d ∷ cs) = ground (arith, member-snoc c cs)

-- A toggle of a class turns whether the element has it.
member-toggle_class :
    (c : String) (e : Element) → member c (toggle_class c e).classes ≡ not (member c e.classes)
unfolding toggle_class remove_class add_class
member-toggle_class c e = elim (Bool-cases (member c e.classes)) [
  | inl has ↦ rw has (member-drop_class c e.classes)
  | inr lacks ↦ rw lacks (member-snoc c e.classes)
]

-- Whether the row at a place is selected; there is none beyond the end.
abbrev pub selected_at : ℕ → List TableRow → Bool
selected_at i [] = false
selected_at zero (r ∷ rs) = is_selected r
selected_at (suc i) (r ∷ rs) = selected_at i rs

abbrev pub clicks : List ℕ → List TableRow → List TableRow
clicks [] rs = rs
clicks (i ∷ is_) rs = clicks is_ (select_demande i rs)

-- As often turned as the place was clicked.
abbrev pub turned : ℕ → List ℕ → Bool → Bool
turned k [] b = b
turned k (i ∷ is_) b = turned k is_ (if i == k then not b else b)

length-select_demande : (i : ℕ) (rs : List TableRow) → length (select_demande i rs) ≡ length rs
unfolding select_demande
length-select_demande i [] = refl
length-select_demande zero (r ∷ rs) = refl
length-select_demande (suc i) (r ∷ rs) = ap suc (length-select_demande i rs)

selected_at-select_demande :
    (k i : ℕ) (rs : List TableRow)
    → k < length rs
    → selected_at k (select_demande i rs)
      ≡ (if i == k then not (selected_at k rs) else selected_at k rs)
unfolding select_demande toggle_row
selected_at-select_demande k i [] h = elim h [ ]
selected_at-select_demande zero zero (r ∷ rs) h = member-toggle_class "selected" r.tr
selected_at-select_demande (suc k) zero (r ∷ rs) h = ground arith
selected_at-select_demande zero (suc i) (r ∷ rs) h = ground arith
selected_at-select_demande (suc k) (suc i) (r ∷ rs) h =
    ground (arith, selected_at-select_demande k i rs)

selected_at-clicks :
    (is_ : List ℕ) (k : ℕ) (rs : List TableRow)
    → k < length rs
    → selected_at k (clicks is_ rs) ≡ turned k is_ (selected_at k rs)
selected_at-clicks [] k rs h = refl
selected_at-clicks (i ∷ is_) k rs h =
    selected_at-clicks is_ k (select_demande i rs) (omega (arith, length-select_demande i rs))
    ∙ ap (turned k is_) (selected_at-select_demande k i rs h)

-- Whether the row at a place is selected and not shown.
abbrev pub hidden_at : ℕ → List TableRow → Bool
hidden_at i [] = false
hidden_at zero (r ∷ rs) = not r.shown && is_selected r
hidden_at (suc i) (r ∷ rs) = hidden_at i rs

is_selected-deselect_row :
    (r : TableRow) → is_selected (deselect_row r) ≡ (not r.shown && is_selected r)
unfolding deselect_row remove_class
is_selected-deselect_row r = elim (Bool-cases r.shown) [
  | inl h ↦ rw h (member-drop_class "selected" r.tr.classes)
  | inr h ↦ rw h refl
]

selected_at-deselect_all :
    (k : ℕ) (rs : List TableRow) → selected_at k (deselect_all rs) ≡ hidden_at k rs
unfolding deselect_all
selected_at-deselect_all k [] = refl
selected_at-deselect_all zero (r ∷ rs) = is_selected-deselect_row r
selected_at-deselect_all (suc k) (r ∷ rs) = selected_at-deselect_all k rs

length-deselect_all : (rs : List TableRow) → length (deselect_all rs) ≡ length rs
unfolding deselect_all
length-deselect_all [] = refl
length-deselect_all (r ∷ rs) = ap suc (length-deselect_all rs)

-- After all rows were deselected and any rows were clicked, a row of the table is selected if it
-- was clicked an odd number of times, or if it was selected on a page that was not shown and was
-- clicked an even number of times.
pub selected_at-clicks-deselect_all :
    (is_ : List ℕ) (k : ℕ) (rs : List TableRow)
    → k < length rs
    → selected_at k (clicks is_ (deselect_all rs)) ≡ turned k is_ (hidden_at k rs)
selected_at-clicks-deselect_all is_ k rs h =
    selected_at-clicks is_ k (deselect_all rs) (omega (arith, length-deselect_all rs))
    ∙ ap (turned k is_) (selected_at-deselect_all k rs)
