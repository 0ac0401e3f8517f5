-- ===== src/Hints.antt =====
-- Fields that show a hint while they are empty: `initblurTextElement`, `clearBlurText`,
-- `clearTextOnFocus` and `addTextOnBlur` of scripts.js. `input[blurText],textarea[blurText]` finds
-- every field with that attribute, whatever other selector finds it too.
pub mod Laws
mod Tests
use cidemis.Base.{String, Bool, true, false, not, Option, none, some, List, map, if◌then◌else◌}
use cidemis.Browser.{Element, World, opt_eq, is, set_value}

-- `.val(v)`, where `v` may be `undefined`: then it reads the value, and changes nothing.
unfoldable pub put_value : Option String → Element → Element
put_value none e = e
put_value (some v) e = set_value v e

abbrev pub is_hinted : Element → Bool
is_hinted e = not (opt_eq (e.attrs "blurText") none)

-- `$('input[blurText],textarea[blurText]').each(f)`
unfoldable pub each_hinted : (Element → Element) → World → World
each_hinted f w = record w {
  elements = λ sel. map (λ e. if is_hinted e then f e else e) (w.elements sel);
}

unfoldable pub add_hint : Element → Element
unfolding put_value set_value
add_hint e = put_value (e.attrs "blurText") e

unfoldable pub clear_hint : Element → Element
unfolding set_value
clear_hint e = if opt_eq (e.attrs "blurText") e.value then set_value "" e else e

unfoldable pub initblur_text_element : World → World
unfolding each_hinted add_hint
initblur_text_element = each_hinted add_hint

unfoldable pub clear_blur_text : World → World
unfolding each_hinted clear_hint
clear_blur_text = each_hinted clear_hint

-- The field that an event is about. `el.val() === el.attr('blurText')`
unfoldable pub clear_text_on_focus : Element → Element
unfolding set_value
clear_text_on_focus e = if opt_eq e.value (e.attrs "blurText") then set_value "" e else e

unfoldable pub add_text_on_blur : Element → Element
unfolding put_value set_value
add_text_on_blur e = if is e.value "" then put_value (e.attrs "blurText") e else e
