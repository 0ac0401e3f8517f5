-- ===== src/Samples.antt =====
-- Pages, servers and users for the tests.
use package.text.Mathlib.Text.{◌==◌ as str_eq}
use cidemis.Base.{String, true, false, none, some, List, [], ◌∷◌, if◌then◌else◌}
use cidemis.Browser.{Element, World, Outside, success, failure, Body}

-- A field with a value and no hint.
abbrev pub field : String → Element
field v = record {
  value = some v;
  attrs = λ name. none;
  classes = [];
  html = "";
  shown = true;
  disabled = false;
  checked = none;
  style = λ name. none;
}

-- A field with a hint.
abbrev pub hinted : String → String → Element
hinted h v = record (field v) { attrs = λ name. if str_eq name "blurText" then some h else none }

-- A button for an action.
abbrev pub green_button : String → Element
green_button action = record (field "") {
  attrs = λ name. if str_eq name "action" then some action else none;
  classes = "green" ∷ [];
}

abbrev find : String → List (String × Element) → List Element
find s [] = []
find s ((sel, e) ∷ es) = let rest = find s es in if str_eq s sel then e ∷ rest else rest

abbrev pub page : List (String × Element) → World
page es = record {
  elements = λ s. find s es;
  posts = [];
  gets = [];
  opened = [];
  dialogs = [];
  location = [];
  submits = [];
}

-- A server that finds nothing wrong, and a user who agrees.
abbrev pub agreeing : Outside
agreeing = record {
  reply = λ p.
      if str_eq p.url "verifier-issn" then success (Body.exist false) else success (Body.text "OK");
  confirms = λ m. true;
}

-- A server that cannot be reached.
abbrev pub unreachable : Outside
unreachable = record { reply = λ p. failure; confirms = λ m. true }

-- The form of a request for a number, with its ISSN.
abbrev pub numbering : String → World
numbering issn = page (
    ("#type_demande", field "22")
    ∷ ("#num_ISSN", field issn)
    ∷ ("#ppn", field "123456789")
    ∷ ("#user_role", field "4")
    ∷ ("#commentaire", hinted "Commentaires" "Commentaires")
    ∷ ("#actiondemande", field "")
    ∷ ("#filecount", field "0")
    ∷ [])

-- The same with a comment.
abbrev pub commented : World
commented = page (
    ("#type_demande", field "22")
    ∷ ("#etat_demande", field "27")
    ∷ ("#commentaire", hinted "Commentaires" "doublon")
    ∷ [])

-- The form of a correction, with a zone and a comment.
abbrev pub correction : World
correction = page (
    ("#type_demande", field "23")
    ∷ ("#zones", field "200")
    ∷ ("#commentaire", hinted "Commentaires" "titre")
    ∷ ("#user_role", field "1")
    ∷ [])
