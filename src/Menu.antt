-- ===== src/Menu.antt =====
-- The menu beside the page (web/src/main/webapp/view/static/js/lib/appy.js): `handleMainMenu`,
-- `handleSidebarToggler`, which nothing calls, and `handleAccordions`. Animations are taken to their
-- ends; a part that slides up is visible until then.
pub mod Single
mod Tests
use cidemis.Base.{
  ℕ, zero, suc, ◌+◌, ◌-◌, String, Bool, true, false, Option, none, some, List, [], ◌∷◌, map, ltb,
  if◌then◌else◌,
}
use cidemis.Events.{Binding, bound}
use cidemis.Browser.{Element, member, add_class, remove_class}

-- An entry `.has-sub`: the class `open` on it and on its arrow, and whether its `.sub` is visible.
pub record Item : Type 0 where
  pub opened : Bool
  pub arrow_opened : Bool
  pub sub_visible : Bool

-- `.page-content`: the height of what it holds, the height that `data-height` keeps, and the style
-- `min-height`.
pub record Content : Type 0 where
  pub inner : ℕ
  pub data_height : Option ℕ
  pub min_height : ℕ

-- `content.height()`
abbrev pub height : Content → ℕ
height c = if ltb c.inner c.min_height then c.min_height else c.inner

abbrev or_height : Option ℕ → ℕ → ℕ
or_height none h = h
or_height (some d) h = d

-- `handleContentHeight`, for the height of the side bar. A number is taken as pixels; the text that
-- `data-height` holds has no unit, is no length, and leaves `min-height` as it was.
unfoldable pub handle_content_height : ℕ → Content → Content
handle_content_height sidebar c =
    let kept = or_height c.data_height (height c) in
    record c {
      data_height = some kept;
      min_height = if ltb (height c) sidebar then sidebar + 20 else c.min_height;
    }

-- The entries that are open when a click comes (`last`) are closed.
unfoldable pub close_open : Item → Item
close_open it =
    if it.opened then record { opened = false; arrow_opened = false; sub_visible = false } else it

-- The clicked entry, whose part was visible or not when the click came.
unfoldable pub turn_item : Bool → Item → Item
turn_item visible it =
    if visible
    then record { opened = false; arrow_opened = false; sub_visible = false }
    else record { opened = true; arrow_opened = true; sub_visible = true }

unfoldable pub click_item : ℕ → List Item → List Item
unfolding close_open turn_item
click_item i [] = []
click_item zero (it ∷ its) = turn_item it.sub_visible (close_open it) ∷ map close_open its
click_item (suc i) (it ∷ its) = close_open it ∷ click_item i its

-- `handleSidebarToggler`: the container starts closed, and a click turns that.
unfoldable pub start_closed : Element → Element
start_closed container = add_class "sidebar-closed" container

unfoldable pub toggle_sidebar : Element → Element
toggle_sidebar container =
    if member "sidebar-closed" container.classes
    then remove_class "sidebar-closed" container
    else add_class "sidebar-closed" container

-- `handleAccordions`: where the page is scrolled to when a part is shown. Without a click before,
-- `lastClicked` is undefined and the handler fails.
pub record Accordions : Type 0 where
  pub last_clicked : Option ℕ
  pub scroll_top : ℕ

unfoldable pub accordion_click : ℕ → Accordions → Accordions
accordion_click offset_top a = record a { last_clicked = some offset_top }

abbrev scrolled : Option ℕ → Accordions → Option Accordions
scrolled none a = none
scrolled (some offset_top) a = some (record a { scroll_top = offset_top - 150 })

unfoldable pub accordion_shown : Accordions → Option Accordions
accordion_shown a = scrolled a.last_clicked a

-- What is bound when the page is ready: the menu and the accordions, without the toggle of the side
-- bar, whose call is taken out.
abbrev appy_bindings : List Binding
appy_bindings =
    bound (".page-sidebar .has-sub > a" ∷ []) ("click" ∷ []) "handleMainMenu"
    ∷ bound (".accordion.scrollable .accordion-toggle" ∷ []) ("click" ∷ []) "handleAccordions"
    ∷ bound (".accordion.scrollable" ∷ []) ("shown" ∷ []) "handleAccordions"
    ∷ []
