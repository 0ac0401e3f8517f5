-- ===== src/Browser.antt =====
-- The browser as the scripts use it: the page's elements as jQuery sees them, the requests that
-- were sent, the dialogs that were shown and the page that is navigated to.
-- A selector is a key of the page, and holds the elements that it finds; different selectors are
-- taken to find different elements.
pub mod Laws
use package.text.Mathlib.Text.{◌==◌ as str_eq}
use cidemis.Base.Strings.Literals.{escape_html}
use cidemis.Base.{
  ℕ, zero, suc, String, Bool, true, false, not, ◌&&◌, ◌||◌, Option, none, some, List, [], ◌∷◌, ◌++◌,
  map, length, if◌then◌else◌,
}

pub record Element : Type 0 where
  -- `none` is `undefined`
  pub value : Option String
  pub attrs : String → Option String
  pub classes : List String
  pub html : String
  pub shown : Bool
  pub disabled : Bool
  -- `prop('checked')`, which a checkbox and a radio button have
  pub checked : Option Bool
  pub style : String → Option String

pub record Post : Type 0 where
  pub url : String
  pub params : List (String × Option String)

-- What a server sends back: a text, or the object `{exist: b}`.
pub data Body : Type 0 where
  text : String → Body
  exist : Bool → Body

pub data Reply : Type 0 where
  success : Body → Reply
  failure : Reply

pub record World : Type 0 where
  pub elements : String → List Element
  -- the latest first
  pub posts : List Post
  pub gets : List Post
  pub opened : List String
  pub dialogs : List String
  pub location : List String
  pub submits : List String

-- What answers the page: the server, and the user who is asked by `confirm`.
pub record Outside : Type 0 where
  pub reply : Post → Reply
  pub confirms : String → Bool

-- `a === b` where either may be `undefined`.
abbrev pub opt_eq : Option String → Option String → Bool
opt_eq none none = true
opt_eq none (some _) = false
opt_eq (some _) none = false
opt_eq (some a) (some b) = str_eq a b

-- `v === "…"`.
abbrev pub is : Option String → String → Bool
is v s = opt_eq v (some s)

-- `!v`.
abbrev pub falsy : Option String → Bool
falsy none = true
falsy (some s) = str_eq s ""

abbrev pub first {ℓ} : {A : Type ℓ} → List A → Option A
first [] = none
first (x ∷ _) = some x

abbrev pub value_of : Option Element → Option String
value_of none = none
value_of (some e) = e.value

abbrev pub attr_of : String → Option Element → Option String
attr_of name none = none
attr_of name (some e) = e.attrs name

-- `$(sel).val()`, `$(sel).attr(name)` and `$(sel).size()`.
unfoldable pub val : World → String → Option String
val w sel = value_of (first (w.elements sel))

unfoldable pub attr : World → String → String → Option String
attr w sel name = attr_of name (first (w.elements sel))

unfoldable pub size : World → String → ℕ
size w sel = length (w.elements sel)

-- A jQuery write goes to every element that the selector finds.
unfoldable pub on : String → (Element → Element) → World → World
on sel f w = record w {
  elements = λ s. if str_eq s sel then map f (w.elements s) else w.elements s;
}

abbrev pub member : String → List String → Bool
member c [] = false
member c (d ∷ ds) = str_eq d c || member c ds

-- `.addClass(c)`: a class stands once.
unfoldable pub add_class : String → Element → Element
add_class c e = if member c e.classes then e else record e { classes = e.classes ++ c ∷ [] }

abbrev pub drop_class : String → List String → List String
drop_class c [] = []
drop_class c (d ∷ ds) = let rest = drop_class c ds in if str_eq d c then rest else d ∷ rest

unfoldable pub remove_class : String → Element → Element
remove_class c e = record e { classes = drop_class c e.classes }

unfoldable pub set_html : String → Element → Element
set_html h e = record e { html = h }

unfoldable pub set_value : String → Element → Element
set_value v e = record e { value = some v }

unfoldable pub show : Element → Element
show e = record e { shown = true }

unfoldable pub hide : Element → Element
hide e = record e { shown = false }

-- A synchronous `$.ajax` POST, which is recorded and answered.
unfoldable pub ajax : Outside → Post → World → Reply × World
ajax o p w = (o.reply p, record w { posts = p ∷ w.posts })

-- `confirm(message)`.
unfoldable pub ask : Outside → String → World → Bool × World
ask o m w = (o.confirms m, record w { dialogs = m ∷ w.dialogs })

unfoldable pub set_disabled : Bool → Element → Element
set_disabled b e = record e { disabled = b }

-- `e.style.name = v`, which is apart from what jQuery's `show` and `hide` set here.
unfoldable pub set_style : String → String → Element → Element
set_style name v e = record e { style = λ n. if str_eq n name then some v else e.style n }

abbrev pub at_first : (Element → Element) → List Element → List Element
at_first f [] = []
at_first f (e ∷ es) = f e ∷ es

-- `if (document.getElementById(id)) f(document.getElementById(id))`, for the selector `#id`.
unfoldable pub on_id : String → (Element → Element) → World → World
on_id sel f w = record w {
  elements = λ s. if str_eq s sel then at_first f (w.elements s) else w.elements s;
}

-- `window.location.replace(url)`
unfoldable pub go_to : String → World → World
go_to url w = record w { location = url ∷ w.location }

-- `.text(v)`
unfoldable pub set_text : String → Element → Element
unfolding escape_html
set_text v e = record e { html = escape_html v }

unfoldable pub set_attr : String → String → Element → Element
set_attr name v e = record e { attrs = λ n. if str_eq n name then some v else e.attrs n }

-- `$(sel).prop('checked')`
abbrev pub checked_of : Option Element → Option Bool
checked_of none = none
checked_of (some e) = e.checked

unfoldable pub prop_checked : World → String → Option Bool
prop_checked w sel = checked_of (first (w.elements sel))

-- `window.open(url)`
unfoldable pub open_window : String → World → World
open_window url w = record w { opened = url ∷ w.opened }
