-- ===== src/Layout/Sizes.antt =====
-- What the sizes come to.
use cidemis.Base.{
  ℕ, zero, suc, ◌+◌, ◌-◌, ◌≤◌, ◌≡◌, refl, Option, none, some, List, [], ◌∷◌, All, get_elem?,
  if◌then◌else◌, arith, ◌==◌,
}
use cidemis.Base.Int.{ℤ, sub_ℕ}
use cidemis.Layout.{
  ColumnsControl, bottom, columns_control_mouseenter, Resizing, mousedown, mouseup, widen, CellSize,
  adjust_row, ajustcolumnsize,
}

-- Where the menu of columns begins, with its borders, above the bottom of the window, it ends
-- there or above when the mouse enters it; it is never made higher, and entering it again changes
-- nothing.
pub columns_control_mouseenter_bounds :
    (window : ℕ) (c : ColumnsControl)
    → c.top + c.borders ≤ window
    → let c' = columns_control_mouseenter window c in
      (bottom c' ≤ window) × (c'.height ≤ c.height) × (columns_control_mouseenter window c' ≡ c')
unfolding columns_control_mouseenter
columns_control_mouseenter_bounds window c h = ground arith

width_at-widen :
    (i k page_x x : ℕ) (ws : List ℕ) (w : ℕ)
    → get_elem? ws k ≡ some w
    → get_elem? (widen i page_x x ws) k ≡ some (if i == k then w + page_x - x else w)
unfolding widen
width_at-widen i k page_x x [] w h = cc
width_at-widen zero zero page_x x (v ∷ ws) w h = ground arith
width_at-widen zero (suc k) page_x x (v ∷ ws) w h = ground arith
width_at-widen (suc i) zero page_x x (v ∷ ws) w h = ground arith
width_at-widen (suc i) (suc k) page_x x (v ∷ ws) w h =
    ground (arith, width_at-widen i k page_x x ws w h)

-- A column whose divider is pressed at one place and released at another is widened by the way
-- between them, and no other is; the options are sent once. Releasing again changes nothing.
pub mouseup-mousedown :
    (i k a b c : ℕ) (r : Resizing) (w : ℕ)
    → get_elem? r.widths k ≡ some w
    → let r' = mouseup b (mousedown i a r) in
      (get_elem? r'.widths k ≡ some (if i == k then w + b - a else w))
      × (r'.updates ≡ suc r.updates)
      × (mouseup c r' ≡ r')
unfolding mouseup mousedown
mouseup-mousedown i k a b c r w h = (width_at-widen i k b a r.widths w h, refl, refl)

-- The cell has the width w in each of its three properties.
abbrev pub HasWidth : ℤ → Option CellSize → Type 0
HasWidth w none = Unit
HasWidth w (some c) = (c.width ≡ w) × (c.min_width ≡ w) × (c.max_width ≡ w)

adjust_row-HasWidth :
    (i o : ℕ) (os : List ℕ) (cells : List CellSize)
    → get_elem? os i ≡ some o
    → HasWidth (sub_ℕ o 4) (get_elem? (adjust_row os cells) i)
unfolding adjust_row
adjust_row-HasWidth i o [] cells h = cc
adjust_row-HasWidth zero o (p ∷ os) [] h = tt
adjust_row-HasWidth (suc i) o (p ∷ os) [] h = tt
adjust_row-HasWidth zero o (p ∷ os) (c ∷ cells) h = ground arith
adjust_row-HasWidth (suc i) o (p ∷ os) (c ∷ cells) h = adjust_row-HasWidth i o os cells h

-- After `ajustcolumnsize` the cells of a column have, in every row of the body, one width, that of the
-- column's head less 4.
pub ajustcolumnsize-HasWidth :
    (i o : ℕ) (os : List ℕ) (rows : List (List CellSize))
    → get_elem? os i ≡ some o
    → All (λ row. HasWidth (sub_ℕ o 4) (get_elem? row i)) (ajustcolumnsize os rows)
unfolding ajustcolumnsize
ajustcolumnsize-HasWidth i o os [] h = tt
ajustcolumnsize-HasWidth i o os (row ∷ rows) h =
    (adjust_row-HasWidth i o os row h, ajustcolumnsize-HasWidth i o os rows h)
