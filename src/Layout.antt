-- ===== src/Layout.antt =====
-- Sizes in pixels: the menu of columns on `mouseenter` and the resizing of columns by the mouse
-- (scripts.js), and `ajustcolumnsize` (datatables.js). A size that the scripts make negative is
-- taken as 0 by `height` and `width`, as `-` does here.
pub mod Sizes
mod Tests
use cidemis.Base.{
  ℕ, zero, suc, ◌+◌, ◌-◌, Bool, true, false, Option, none, some, List, [], ◌∷◌, map, leb,
  if◌then◌else◌,
}
use cidemis.Base.Int.{ℤ, sub_ℕ}

-- `#columns_control`: where it begins, the height of its content, and what its borders add.
pub record ColumnsControl : Type 0 where
  pub top : ℕ
  pub height : ℕ
  pub borders : ℕ
  pub scrolls : Bool

-- `getBoundingClientRect().bottom`
abbrev pub bottom : ColumnsControl → ℕ
bottom c = c.top + c.height + c.borders

unfoldable pub columns_control_mouseenter : ℕ → ColumnsControl → ColumnsControl
columns_control_mouseenter window c =
    if leb (bottom c) window
    then c
    else record c { height = c.height - (bottom c - window); scrolls = true }

-- `x`, `mouse_down` and `resizer`, the widths of the columns, and how often `updateColonnesOptions`
-- was called.
pub record Resizing : Type 0 where
  pub x : ℕ
  pub mouse_down : Bool
  pub resizer : Option ℕ
  pub widths : List ℕ
  pub updates : ℕ

unfoldable pub mousedown : ℕ → ℕ → Resizing → Resizing
mousedown column page_x r = record r { mouse_down = true; x = page_x; resizer = some column }

unfoldable pub widen : ℕ → ℕ → ℕ → List ℕ → List ℕ
widen i page_x x [] = []
widen zero page_x x (w ∷ ws) = (w + page_x - x) ∷ ws
widen (suc i) page_x x (w ∷ ws) = w ∷ widen i page_x x ws

abbrev widen_some : Option ℕ → ℕ → ℕ → List ℕ → List ℕ
widen_some none page_x x ws = ws
widen_some (some i) page_x x ws = widen i page_x x ws

unfoldable pub mouseup : ℕ → Resizing → Resizing
unfolding widen
mouseup page_x r =
    if r.mouse_down
    then record r {
      widths = widen_some r.resizer page_x r.x r.widths;
      mouse_down = false;
      updates = suc r.updates;
    }
    else r

-- A cell of the body: `width`, `min-width` and `max-width`.
pub record CellSize : Type 0 where
  pub width : ℤ
  pub min_width : ℤ
  pub max_width : ℤ

-- A row of the body gets the widths of the head's cells, less 4, as far as both go.
unfoldable pub adjust_row : List ℕ → List CellSize → List CellSize
adjust_row [] cells = cells
adjust_row (o ∷ os) [] = []
adjust_row (o ∷ os) (c ∷ cells) =
    record { width = sub_ℕ o 4; min_width = sub_ℕ o 4; max_width = sub_ℕ o 4 } ∷ adjust_row os cells

unfoldable pub ajustcolumnsize : List ℕ → List (List CellSize) → List (List CellSize)
unfolding adjust_row
ajustcolumnsize outer_widths rows = map (adjust_row outer_widths) rows
