-- ===== src/Cookies.antt =====
-- `getCookieValue` and `setCookie` of web/src/main/webapp/view/static/js/datatables.js, over the text
-- of `document.cookie`.
pub mod Jar
pub mod RoundTrip
pub mod Assign
mod Tests
use cidemis.Base.{ℕ, ◌+◌, ◌*◌, Option, none, some, List, [], ◌∷◌, ◌++◌, Text, codes, split}

abbrev pub first_part : List Text → Option Text
first_part [] = none
first_part (p ∷ _) = some p

-- `if (parts.length === 2) return parts.pop().split(';').shift()`; otherwise `undefined`.
unfoldable pub read_parts : List Text → Option Text
read_parts (p ∷ q ∷ []) = first_part (split (b';' ∷ []) q)
read_parts _ = none

unfoldable pub get_cookie_value : Text → Text → Option Text
get_cookie_value cookie name =
    read_parts (split (b';' ∷ b' ' ∷ (name ++ b'=' ∷ [])) (b';' ∷ b' ' ∷ cookie))

-- The text that `setCookie` assigns to `document.cookie`, at the time `now` in milliseconds.
-- `to_utc_string` prints a time.
unfoldable pub set_cookie : (ℕ → Text) → ℕ → Text → Text → ℕ → Text
set_cookie to_utc_string now name value expiration_in_days =
    let d = now + expiration_in_days * 24 * 60 * 60 * 1000 in
    let expires = codes "expires=" ++ to_utc_string d in
    name ++ (b'=' ∷ (value ++ (b';' ∷ (expires ++ (b';' ∷ codes "path=/")))))
