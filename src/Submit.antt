-- ===== src/Submit.antt =====
-- The buttons of the form: `actiondemande` and `verifnoticedemande` of scripts.js.
pub mod Sends
pub mod Content
mod Tests
use cidemis.Base.{
  String, Bool, true, false, not, ◌&&◌, Option, none, some, List, [], ◌∷◌, if◌then◌else◌,
}
use cidemis.Browser.{Element, Post, World, Outside, is, val, on, ask, member}
use cidemis.Service.{Answer, truthy, ajax_popup}
use cidemis.Hints.{put_value, clear_blur_text}
use cidemis.Form.{verifdemande}

-- Where a click lands: on a button, or on the text in it, whose parent is the button.
pub data Target : Type 0 where
  button in_span : Element → Target

abbrev pub clicked : Target → Element
clicked (button el) = el
clicked (in_span el) = el

abbrev pub notice_demande_post : Option String → Post
notice_demande_post num = record { url = "verifnoticedemande"; params = ("demande_num", num) ∷ [] }

unfoldable pub verifnoticedemande : Outside → Option String → World → Answer × World
verifnoticedemande o num w = ajax_popup o (notice_demande_post num) w

unfoldable pub submit : String → World → World
submit form w = record w { submits = form ∷ w.submits }

-- The action and the number of files are put into the form, the hints are taken out, and it is sent.
unfoldable pub send : Option String → Option String → World → World
send action filecount w = submit "#creation-demande" (
    clear_blur_text
      (on "#filecount" (put_value filecount) (on "#actiondemande" (put_value action) w)))

-- The user is asked if the button says so.
abbrev pub confirm_button : Outside → Option String → World → Bool × World
confirm_button o none w = (true, w)
confirm_button o (some message) w = ask o message w

-- What follows a good form: a request validated by the one in charge is looked up first.
unfoldable pub send_checked : Outside → Option String → Option String → World → World
send_checked o action filecount w =
    if is action "valider" && is (val w "#user_role") "2"
    then (let (found, w') = verifnoticedemande o (val w "#id_demande") w in
        if truthy found then send action filecount w' else w')
    else send action filecount w

unfoldable pub send_green : Outside → Option String → Option String → World → World
send_green o action filecount w =
    let (valid, w') = verifdemande o action w in
    if valid then send_checked o action filecount w' else w'

unfoldable pub actiondemande : Outside → Option String → Target → World → World
actiondemande o filecount t w =
    let el = clicked t in
    let action = el.attrs "action" in
    if member "green" el.classes
    then (let (sure, w') = confirm_button o (el.attrs "confirm") w in
        if sure then send_green o action filecount w' else w')
    else send action filecount w
