-- ===== src/Keys/Tests.antt =====
-- Enter in concrete fields.
use cidemis.Base.{◌≡◌, refl, [], ◌∷◌, List, String, none, some, if◌then◌else◌}
use package.text.Mathlib.Text.{◌==◌ as str_eq}
use cidemis.Browser.{Element}
use cidemis.Samples.{field}
use cidemis.Keys.{nothing, calls, type_error, validate_on_enter}

-- A field that calls a function on Enter.
abbrev caller : String → Element
caller name = record (field "") {
  attrs = λ a. if str_eq a "validateOnEnter" then some name else none;
}

abbrev mail_functions : List String
mail_functions = "creatEmailButton" ∷ "modifemail" ∷ []

modifemail_on_enter : validate_on_enter mail_functions (caller "modifemail") 13 ≡ calls "modifemail"
unfolding validate_on_enter
modifemail_on_enter = refl

other_key : validate_on_enter mail_functions (caller "modifemail") 65 ≡ nothing
unfolding validate_on_enter
other_key = refl

-- The page names a function that the scripts do not have.
createmailbutton_on_enter :
    validate_on_enter mail_functions (caller "createmailbutton") 13 ≡ type_error
unfolding validate_on_enter
createmailbutton_on_enter = refl
