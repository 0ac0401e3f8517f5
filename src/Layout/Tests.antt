-- ===== src/Layout/Tests.antt =====
-- Sizes at concrete pages.
use cidemis.Base.{◌≡◌, ◌≤◌, none, false, [], ◌∷◌, arith}
use cidemis.Base.Int.{sub_ℕ}
use cidemis.Layout.{ColumnsControl, bottom, columns_control_mouseenter, Resizing, CellSize}
use cidemis.Layout.Sizes.{columns_control_mouseenter_bounds}

abbrev high : ColumnsControl
high = record { top = 100; height = 900; borders = 2; scrolls = false }

columns_control_mouseenter_bounds_example :
    (bottom (columns_control_mouseenter 768 high) ≤ 768)
    × ((columns_control_mouseenter 768 high).height ≤ 900)
    × (columns_control_mouseenter 768 (columns_control_mouseenter 768 high)
        ≡ columns_control_mouseenter 768 high)
columns_control_mouseenter_bounds_example = columns_control_mouseenter_bounds 768 high (omega arith)

abbrev columns : Resizing
columns = record { x = 0; mouse_down = false; resizer = none; widths = 80 ∷ 120 ∷ []; updates = 0 }

abbrev cell : CellSize
cell = record { width = sub_ℕ 0 0; min_width = sub_ℕ 0 0; max_width = sub_ℕ 0 0 }
