-- ===== src/Menu/Tests.antt =====
-- Clicks in a menu of three entries.
use cidemis.Base.{◌≡◌, refl, true, false, not, [], ◌∷◌, List, All, if◌then◌else◌, arith, none}
use cidemis.Browser.{add_class, remove_class}
use cidemis.Samples.{field}
use cidemis.Menu.{
  Item, Content, click_item, close_open, turn_item, start_closed, toggle_sidebar, accordion_shown,
}
use cidemis.Menu.Single.{IsCoherent, open_items, is_open, clicks, click_item-clicks}

abbrev closed : Item
closed = record { opened = false; arrow_opened = false; sub_visible = false }

abbrev menu : List Item
menu = closed ∷ (closed ∷ (closed ∷ []))

second_only : is_open 1 (clicks (0 ∷ 1 ∷ []) menu) ≡ true
unfolding click_item close_open turn_item
second_only = refl

opened_again : (toggle_sidebar (start_closed (field ""))).classes ≡ []
unfolding toggle_sidebar start_closed add_class remove_class
opened_again = refl

unclicked : accordion_shown (record { last_clicked = none; scroll_top = 0 }) ≡ none
unfolding accordion_shown
unclicked = refl

click_item-clicks_example :
    All IsCoherent (click_item 1 (clicks (0 ∷ 2 ∷ []) menu))
    × (is_open 1 (click_item 1 (clicks (0 ∷ 2 ∷ []) menu))
        ≡ not (is_open 1 (clicks (0 ∷ 2 ∷ []) menu)))
    × (open_items (click_item 1 (clicks (0 ∷ 2 ∷ []) menu))
        ≡ (if is_open 1 (clicks (0 ∷ 2 ∷ []) menu) then 0 else 1))
click_item-clicks_example =
    click_item-clicks (0 ∷ 2 ∷ []) 1 menu (omega arith)
      ((refl, refl), ((refl, refl), ((refl, refl), tt)))

abbrev low : Content
low = record { inner = 300; data_height = none; min_height = 0 }
