-- ===== src/Exports/Chosen.antt =====
-- The export of the rows that are selected by clicks (scripts.js).
use mathlib.Core.Path.{subst}
use cidemis.Base.{
  ℕ, zero, suc, ◌<◌, ◌≡◌, refl, sym, ap, ◌∙◌, Bool, some, List, [], ◌∷◌, Text, map, length, All,
  if◌then◌else◌, arith, Bool-cases, inl, inr,
}
use cidemis.Browser.{World, val}
use cidemis.Selection.{
  TableRow, toggle_row, select_demande, deselect_row, deselect_all, selected_numbers,
}
use cidemis.Selection.Clicks.{
  hidden_at, selected_at, clicks, turned, selected_at-clicks-deselect_all,
}
use cidemis.Exports.{Numbers, Cell, array_id, get_selected, export_demandes}
use cidemis.Exports.Fields.{IsNumber, export_of, export_demandes-fields}

-- The numbers of the rows at the places that f picks.
abbrev pub picked : (ℕ → Bool) → List TableRow → List Text
picked f [] = []
picked f (r ∷ rs) =
    let rest = picked (λ k. f (suc k)) rs in if f zero then r.number ∷ rest else rest

abbrev numbers : List TableRow → List Text
numbers = map (λ (r : TableRow). r.number)

numbers-select_demande : (i : ℕ) (rs : List TableRow) → numbers (select_demande i rs) ≡ numbers rs
unfolding select_demande toggle_row
numbers-select_demande i [] = refl
numbers-select_demande zero (r ∷ rs) = refl
numbers-select_demande (suc i) (r ∷ rs) = ap (λ ns. r.number ∷ ns) (numbers-select_demande i rs)

numbers-clicks : (is_ : List ℕ) (rs : List TableRow) → numbers (clicks is_ rs) ≡ numbers rs
numbers-clicks [] rs = refl
numbers-clicks (i ∷ is_) rs = numbers-clicks is_ (select_demande i rs) ∙ numbers-select_demande i rs

numbers-deselect_all : (rs : List TableRow) → numbers (deselect_all rs) ≡ numbers rs
unfolding deselect_all deselect_row
numbers-deselect_all [] = refl
numbers-deselect_all (r ∷ rs) = elim (Bool-cases r.shown) [
  | inl h ↦ rw h (ap (λ ns. r.number ∷ ns) (numbers-deselect_all rs))
  | inr h ↦ rw h (ap (λ ns. r.number ∷ ns) (numbers-deselect_all rs))
]

head_of : {a b : Text} {as' bs : List Text} → a ∷ as' ≡ b ∷ bs → a ≡ b
head_of e = cc

tail_of : {a b : Text} {as' bs : List Text} → a ∷ as' ≡ b ∷ bs → as' ≡ bs
tail_of e = cc

-- Rows with the same numbers, of which those are selected that f picks.
selected_numbers-picked :
    (f : ℕ → Bool) (rs ss : List TableRow)
    → numbers ss ≡ numbers rs
    → ((k : ℕ) → k < length rs → selected_at k ss ≡ f k)
    → selected_numbers ss ≡ picked f rs
unfolding selected_numbers
selected_numbers-picked f [] [] e h = refl
selected_numbers-picked f [] (s ∷ ss) e h = cc
selected_numbers-picked f (r ∷ rs) [] e h = cc
selected_numbers-picked f (r ∷ rs) (s ∷ ss) e h =
    let rest =
      selected_numbers-picked (λ k. f (suc k)) rs ss (tail_of e)
        (λ k l. h (suc k) (omega (arith, l))) in
    elim (Bool-cases (f zero)) [
      | inl on ↦
          rw (h zero (omega arith) ∙ on, on, rest)
            (ap (λ n. n ∷ picked (λ k. f (suc k)) rs) (head_of e))
      | inr off ↦ rw (h zero (omega arith) ∙ off, off) rest
    ]

get_selected-value : (ts : List Text) → get_selected (map Cell.value ts) ≡ ts
unfolding get_selected
get_selected-value [] = refl
get_selected-value (t ∷ ts) = ap (λ us. t ∷ us) (get_selected-value ts)

pub export_demandes-clicks :
    (is_ : List ℕ) (rs : List TableRow) (t : Numbers) (a b : Bool) (w : World)
    → val w ".popupdiv .exporttype" ≡ some "exportselected"
    → t.selected ≡ map Cell.value (selected_numbers (clicks is_ (deselect_all rs)))
    → let ids = picked (λ k. turned k is_ (hidden_at k rs)) rs in
      All IsNumber ids → (export_demandes t a b w).1 ≡ export_of a b ids
unfolding array_id
export_demandes-clicks is_ rs t a b w choice chosen h =
    let ids = picked (λ k. turned k is_ (hidden_at k rs)) rs in
    let same_ids : array_id (val w ".popupdiv .exporttype") t ≡ ids =
      rw (choice, chosen)
        (get_selected-value (selected_numbers (clicks is_ (deselect_all rs)))
          ∙ selected_numbers-picked (λ k. turned k is_ (hidden_at k rs)) rs
              (clicks is_ (deselect_all rs))
              (numbers-clicks is_ (deselect_all rs) ∙ numbers-deselect_all rs)
              (λ k l. selected_at-clicks-deselect_all is_ k rs l)) in
    (export_demandes-fields t a b w (subst (All IsNumber) (sym same_ids) h)).0
    ∙ ap (export_of a b) same_ids
