-- ===== src/Events.antt =====
-- The events of the page: which handler the scripts bind to which event (the calls of `click`,
-- `change`, `focus`, `blur`, `on` and `delegate` in scripts.js and datatables.js), and which handlers
-- an event calls while it goes from its target outward.
pub mod Bindings
pub mod Dispatch
mod Tests
use package.text.Mathlib.Text.{◌==◌ as str_eq}
use cidemis.Base.{
  String, Bool, true, false, ◌&&◌, ◌||◌, Option, none, some, List, [], ◌∷◌, ◌++◌, if◌then◌else◌,
}
use cidemis.Browser.{member, opt_eq}

-- A handler that is bound at the elements that one of the selectors finds, or that these elements
-- call for the elements in them that the inner selector finds; the handler by its name in the
-- scripts.
pub record Binding : Type 0 where
  pub selectors : List String
  pub inner : Option String
  pub events : List String
  pub handler : String

-- An element, by the selectors that find it.
abbrev pub Node : Type 0
Node = List String

-- `$(selectors).on(events, handler)`, which `click`, `change`, `focus` and `blur` are short for.
abbrev pub bound : List String → List String → String → Binding
bound selectors events handler = record {
  selectors = selectors;
  inner = none;
  events = events;
  handler = handler;
}

-- `$(selector).delegate(inner, events, handler)`
abbrev pub delegated : String → String → List String → String → Binding
delegated selector inner events handler = record {
  selectors = selector ∷ [];
  inner = some inner;
  events = events;
  handler = handler;
}

abbrev pub touches : List String → Node → Bool
touches [] n = false
touches (s ∷ ss) n = member s n || touches ss n

-- Whether a binding is about the element that a call is for: there is none for a handler that is
-- bound without an inner selector.
abbrev pub fits : Option String → Option Node → Bool
fits none none = true
fits none (some n) = false
fits (some i) none = false
fits (some i) (some n) = member i n

-- The handlers at an element that are called for the event.
unfoldable pub due : String → Option Node → Node → List Binding → List String
due event inside node [] = []
due event inside node (b ∷ bs) =
    let rest = due event inside node bs in
    if member event b.events && (touches b.selectors node && fits b.inner inside)
    then b.handler ∷ rest
    else rest

-- The delegated handlers at an element, from the target of the event outward.
unfoldable pub due_inside : String → List Node → Node → List Binding → List String
unfolding due
due_inside event [] node bs = []
due_inside event (n ∷ below) node bs = due event (some n) node bs ++ due_inside event below node bs

-- The handlers that an event calls on its way, where none of them stops it: at each element the
-- delegated ones, then the others.
unfoldable pub dispatch : String → List Node → List Node → List Binding → List String
unfolding due due_inside
dispatch event below [] bs = []
dispatch event below (node ∷ path) bs =
    due_inside event below node bs
    ++ (due event none node bs ++ dispatch event (below ++ node ∷ []) path bs)

-- `$(selector).undelegate(inner, event, handler)`
unfoldable pub undelegate : String → String → String → String → List Binding → List Binding
undelegate selector inner event handler [] = []
undelegate selector inner event handler (b ∷ bs) =
    let rest = undelegate selector inner event handler bs in
    if touches b.selectors (selector ∷ [])
      && (opt_eq b.inner (some inner) && (member event b.events && str_eq b.handler handler))
    then rest
    else b ∷ rest
