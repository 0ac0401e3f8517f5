-- ===== src/Keys.antt =====
-- The key Enter in a field with the attribute `validateOnEnter`: `initValidateOnEnter` and
-- `validateOnEnter` (scripts.js).
mod Tests
use package.text.Mathlib.Text.{◌==◌ as str_eq}
use cidemis.Base.{
  ℕ, String, Bool, true, false, Option, none, some, List, [], ◌∷◌, map, ◌==◌, if◌then◌else◌,
}
use cidemis.Browser.{World, Element, member}
use cidemis.Service.{written}

-- What a key does: nothing, the call of a function of the window, or a call of `undefined`.
pub data Called : Type 0 where
  nothing : Called
  calls : String → Called
  type_error : Called

-- `window[name]()`, where the window has the functions of the given names.
abbrev call_window : List String → String → Called
call_window functions name = if member name functions then calls name else type_error

-- The handler of a field. Its attribute is read when the key goes up.
unfoldable pub validate_on_enter : List String → Element → ℕ → Called
validate_on_enter functions element which =
    if which == 13
    then call_window functions (written (element.attrs "validateOnEnter"))
    else nothing

-- Every field with the attribute gets a handler.
unfoldable pub init_validate_on_enter : List String → World → List (ℕ → Called)
unfolding validate_on_enter
init_validate_on_enter functions w =
    map (validate_on_enter functions) (w.elements "[validateOnEnter]")
