-- ===== src/Menu/Single.antt =====
-- At most one entry of the menu is open.
use cidemis.Base.{
  ◌∙◌, ℕ, zero, suc, ◌+◌, ◌≤◌, ◌<◌, ◌≡◌, refl, ap, Bool, false, not, List, [], ◌∷◌, map, All,
  length, if◌then◌else◌, arith,
}
use cidemis.Menu.{Item, Content, height, handle_content_height, close_open, click_item}

-- The class, the arrow and what is visible of an entry agree.
abbrev pub IsCoherent : Item → Type 0
IsCoherent it = (it.arrow_opened ≡ it.opened) × (it.sub_visible ≡ it.opened)

abbrev pub open_items : List Item → ℕ
open_items [] = 0
open_items (it ∷ its) = (if it.opened then 1 else 0) + open_items its

abbrev pub is_open : ℕ → List Item → Bool
is_open k [] = false
is_open zero (it ∷ its) = it.opened
is_open (suc k) (it ∷ its) = is_open k its

close_open-IsCoherent : (it : Item) → IsCoherent it → IsCoherent (close_open it)
unfolding close_open
close_open-IsCoherent it h = ground arith

map-close_open-IsCoherent :
    (its : List Item) → All IsCoherent its → All IsCoherent (map close_open its)
map-close_open-IsCoherent [] h = tt
map-close_open-IsCoherent (it ∷ its) (h, hs) =
    (close_open-IsCoherent it h, map-close_open-IsCoherent its hs)

click_item-IsCoherent :
    (i : ℕ) (its : List Item) → All IsCoherent its → All IsCoherent (click_item i its)
unfolding click_item
click_item-IsCoherent i [] h = tt
click_item-IsCoherent zero (it ∷ its) (h, hs) = (ground arith, map-close_open-IsCoherent its hs)
click_item-IsCoherent (suc i) (it ∷ its) (h, hs) =
    (close_open-IsCoherent it h, click_item-IsCoherent i its hs)

close_open-closed : (it : Item) → (close_open it).opened ≡ false
unfolding close_open
close_open-closed it = ground arith

map-close_open-closed : (its : List Item) → open_items (map close_open its) ≡ 0
map-close_open-closed [] = refl
map-close_open-closed (it ∷ its) =
    rw (close_open-closed it) (omega (arith, map-close_open-closed its))

-- After a click the clicked entry is open if it was not, and every other one is closed.
click_item-open :
    (i : ℕ) (its : List Item)
    → i < length its
    → All IsCoherent its
    → (is_open i (click_item i its) ≡ not (is_open i its))
      × (open_items (click_item i its) ≡ (if is_open i its then 0 else 1))
unfolding click_item
click_item-open i [] k h = elim k [ ]
click_item-open zero (it ∷ its) k (h, hs) = ground (arith, map-close_open-closed its)
click_item-open (suc i) (it ∷ its) k (h, hs) =
    let (turned, others) = click_item-open i its (omega (arith, k)) hs in
    rw (close_open-closed it) (turned, omega (arith, others))

-- Clicks on entries of the menu.
abbrev pub clicks : List ℕ → List Item → List Item
clicks [] its = its
clicks (i ∷ is_) its = clicks is_ (click_item i its)

clicks-IsCoherent :
    (is_ : List ℕ) (its : List Item) → All IsCoherent its → All IsCoherent (clicks is_ its)
clicks-IsCoherent [] its h = h
clicks-IsCoherent (i ∷ is_) its h =
    clicks-IsCoherent is_ (click_item i its) (click_item-IsCoherent i its h)

length-map_close : (its : List Item) → length (map close_open its) ≡ length its
length-map_close [] = refl
length-map_close (it ∷ its) = ap suc (length-map_close its)

length-click_item : (i : ℕ) (its : List Item) → length (click_item i its) ≡ length its
unfolding click_item
length-click_item i [] = refl
length-click_item zero (it ∷ its) = ap suc (length-map_close its)
length-click_item (suc i) (it ∷ its) = ap suc (length-click_item i its)

length-clicks : (is_ : List ℕ) (its : List Item) → length (clicks is_ its) ≡ length its
length-clicks [] its = refl
length-clicks (i ∷ is_) its = length-clicks is_ (click_item i its) ∙ length-click_item i its

-- In a menu whose entries each have their class, their arrow and their part in the same state,
-- this stays so under any clicks, and a further click on an entry opens it, if it was closed, and
-- closes it, if it was open; all others are closed then.
pub click_item-clicks :
    (is_ : List ℕ) (i : ℕ) (its : List Item)
    → i < length its
    → All IsCoherent its
    → let before = clicks is_ its in
      let after = click_item i before in
      All IsCoherent after
      × (is_open i after ≡ not (is_open i before))
      × (open_items after ≡ (if is_open i before then 0 else 1))
click_item-clicks is_ i its k h =
    let s = clicks is_ its in
    let c = clicks-IsCoherent is_ its h in
    let (turned, others) = click_item-open i s (omega (arith, length-clicks is_ its, k)) c in
    (click_item-IsCoherent i s c, turned, others)

-- A content that is lower than the side bar is made 20 higher than it by `handleContentHeight`,
-- and stays so when the side bar has become lower: the height that is kept is not put back.
handle_content_height_kept :
    (high low : ℕ) (c : Content)
    → height c < high
    → low ≤ high
    → let once = handle_content_height high c in
      let twice = handle_content_height low once in
      (height once ≡ high + 20)
      × (height twice ≡ high + 20)
      × (twice.data_height ≡ once.data_height)
unfolding handle_content_height
handle_content_height_kept high low c h k = (ground arith, ground arith, refl)
