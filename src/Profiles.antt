-- ===== src/Profiles.antt =====
-- The panel on which users are dragged between profiles: the handlers of `initDragAnDrop` and
-- `updateUserProfil` (scripts.js).
pub mod Places
pub mod Server
mod Tests
use package.text.Mathlib.Text.{◌==◌ as str_eq}
use cidemis.Base.{
  ℕ, zero, suc, String, Bool, true, false, ◌||◌, Option, none, some, List, [], ◌∷◌, ◌++◌, map,
  if◌then◌else◌,
}
use cidemis.Browser.{World}
use cidemis.Sending.{post}

-- An entry `li[user]` of the panel, with its opacity.
pub record PanelEntry : Type 0 where
  pub user : String
  pub opacity : String

-- An element `.profil`, with the entries of its list.
pub record Profil : Type 0 where
  pub name : String
  pub entries : List PanelEntry
  pub border : String
  pub background : String

-- The panel, the text that is dragged, and the page.
pub record Panel : Type 0 where
  pub profils : List Profil
  pub transfer : String
  pub world : World

unfoldable pub fade : String → String → List PanelEntry → List PanelEntry
fade user opacity [] = []
fade user opacity (l ∷ ls) =
    (if str_eq l.user user then record l { opacity = opacity } else l) ∷ fade user opacity ls

abbrev pub fade_in : String → String → Profil → Profil
fade_in user opacity p = record p { entries = fade user opacity p.entries }

abbrev pub paint : String → String → Profil → Profil
paint border background p = record p { border = border; background = background }

-- A change of the profile at a place.
unfoldable pub at : ℕ → (Profil → Profil) → List Profil → List Profil
at i f [] = []
at zero f (p ∷ ps) = f p ∷ ps
at (suc i) f (p ∷ ps) = p ∷ at i f ps

-- The entries of a user, and the others.
unfoldable pub only : String → List PanelEntry → List PanelEntry
only user [] = []
only user (l ∷ ls) = let rest = only user ls in if str_eq l.user user then l ∷ rest else rest

unfoldable pub without : String → List PanelEntry → List PanelEntry
without user [] = []
without user (l ∷ ls) = let rest = without user ls in if str_eq l.user user then rest else l ∷ rest

abbrev pub take_out : String → Profil → Profil
take_out user p = record p { entries = without user p.entries }

-- `$('#profil_panel li[user="…"]')`
unfoldable pub entries_of : String → List Profil → List PanelEntry
unfolding only
entries_of user [] = []
entries_of user (p ∷ ps) = only user p.entries ++ entries_of user ps

-- `ul.append(entries)`, which takes them from where they are.
unfoldable pub append_to : ℕ → String → List Profil → List Profil
unfolding entries_of without at
append_to i user ps =
    at i (λ p. record p { entries = p.entries ++ entries_of user ps }) (map (take_out user) ps)

unfoldable pub update_user_profil : String → String → World → World
update_user_profil user profil w =
    post "update-user-profil" (("user", some user) ∷ ("profil", some profil) ∷ []) w

-- The handlers. `dragover` only allows a drop.
unfoldable pub dragstart : String → Panel → Panel
dragstart user b = record b { profils = map (fade_in user "0.5") b.profils; transfer = user }

unfoldable pub dragenter : ℕ → Panel → Panel
dragenter i b = record b { profils = at i (paint "solid 2px #166dae" "lightgrey") b.profils }

unfoldable pub dragleave : ℕ → Panel → Panel
dragleave i b = record b { profils = at i (paint "solid 1px #555" "white") b.profils }

-- The profile at a place; no event comes from a place where there is none.
abbrev pub profil_at : ℕ → List Profil → Option Profil
profil_at i [] = none
profil_at zero (p ∷ ps) = some p
profil_at (suc i) (p ∷ ps) = profil_at i ps

unfoldable pub drop_on : Option Profil → ℕ → Panel → Panel
unfolding append_to update_user_profil
drop_on none i b = b
drop_on (some profil) i b = record b {
  profils = at i (paint "solid 1px #555" "white") (append_to i b.transfer b.profils);
  world = update_user_profil b.transfer profil.name b.world;
}

unfoldable pub drop : ℕ → Panel → Panel
drop i b = drop_on (profil_at i b.profils) i b

unfoldable pub dragend : String → Panel → Panel
dragend user b = record b { profils = map (fade_in user "1") b.profils }

pub data DragEvent : Type 0 where
  started ended : String → DragEvent
  entered left over dropped : ℕ → DragEvent

unfoldable pub handle : DragEvent → Panel → Panel
handle (started user) b = dragstart user b
handle (ended user) b = dragend user b
handle (entered i) b = dragenter i b
handle (left i) b = dragleave i b
handle (over i) b = b
handle (dropped i) b = drop i b
