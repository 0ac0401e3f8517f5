-- ===== src/Email.antt =====
-- The e-mail address of the user: `testEmail`, `creatEmailButton`, `showmodifemail`, `modifemail` and
-- `updateemail` of scripts.js.
pub mod Labels
pub mod Address
pub mod Update
mod Tests
use cidemis.Base.{
  ℕ, String, Bool, true, false, ◌||◌, ◌&&◌, Option, none, some, List, [], ◌∷◌, Text, codes, leb,
  ◌==◌, if◌then◌else◌,
}
use cidemis.Base.Strings.Literals.{trim}
use cidemis.Browser.{
  World, Element, val, attr, on, on_id, set_text, set_attr, set_style, hide, show,
}
use cidemis.Hints.{put_value}
use cidemis.Regex.{Regex, empty, unit, seq, star, plus, opt, lit, finds}
use cidemis.Sending.{post}

abbrev is_alnum : ℕ → Bool
is_alnum c = leb b'a' c && leb c b'z' || leb b'0' c && leb c b'9'

abbrev one_of : Text → ℕ → Bool
one_of [] c = false
one_of (d ∷ ds) c = c == d || one_of ds c

-- `[a-z0-9!#$%&'*+/=?^_`{|}~-]`
abbrev is_atom : ℕ → Bool
is_atom c = is_alnum c || one_of (codes "!#$%&'*+/=?^_`{|}~-") c

-- `[a-z0-9-]`
abbrev is_inner : ℕ → Bool
is_inner c = is_alnum c || c == b'-'

-- `[a-z0-9](?:[a-z0-9-]*[a-z0-9])?`
unfoldable pub label : Regex
label = seq (unit is_alnum) (opt (seq (star (unit is_inner)) (unit is_alnum)))

unfoldable pub local_part : Regex
local_part = seq (plus (unit is_atom)) (star (seq (lit b'.') (plus (unit is_atom))))

unfoldable pub domain : Regex
unfolding label
domain = seq (plus (seq label (lit b'.'))) label

unfoldable pub reg_email : Regex
unfolding local_part domain
reg_email = seq local_part (seq (lit b'@') domain)

unfoldable pub test_email : Text → Bool
unfolding reg_email finds
test_email email = finds reg_email email

unfoldable pub updateemail : String → World → World
updateemail email w = post "updateemail" (("email", some email) ∷ []) w

abbrev wrong_address : String
wrong_address = "Veuillez saisir une adresse e-mail correcte"

-- The new address is noted in the field that changes it, and shown.
abbrev note_email : String → World → World
note_email email w = on ".email" (set_text email) (on "#modifemail input" (set_attr "mail" email) w)

-- What the buttons do with the address of a field: a page without the field has none, and the
-- handler stops at `trim`.
unfoldable pub create_with : Option String → World → World
create_with none w = w
create_with (some v) w =
    let email = trim v in
    if test_email (codes email)
    then note_email email
        (on "#covermail .errortxt" (set_text "") (on "#covermail" hide (updateemail email w)))
    else on "#covermail .errortxt" (set_text wrong_address) w

-- An animation is taken to its end.
unfoldable pub creat_email_button : World → World
creat_email_button w = create_with (val w "#mailpopup input") w

unfoldable pub modify_with : Option String → World → World
modify_with none w = w
modify_with (some v) w =
    let email = trim v in
    if test_email (codes email)
    then note_email email (
        on "#modifemail" hide
          (on "#emailbutton" show (on "#modifemail .errortxt" (set_text "") (updateemail email w))))
    else on "#modifemail .errortxt" (set_text wrong_address) w

unfoldable pub modifemail : World → World
modifemail w = modify_with (val w "#modifemail input") w

-- The click is on `#emailbutton`.
unfoldable pub showmodifemail : World → World
showmodifemail w =
    let w' = on "#emailbutton" hide w in
    on "#modifemail" (set_style "display" "inline")
      (on "#modifemail input" (put_value (attr w' "#modifemail input" "mail")) w')
