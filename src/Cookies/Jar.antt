-- ===== src/Cookies/Jar.antt =====
-- What the browser keeps of the cookies of a path: what it makes of a text that is assigned to
-- `document.cookie` (its name up to the first `=`, its value up to the first `;`, both without blanks
-- around them, and the date after them), and the text that it shows there.
use cidemis.Base.{
  ℕ, Bool, true, false, ◌||◌, Option, none, some, List, [], ◌∷◌, ◌++◌, Text, same, ◌==◌,
  if◌then◌else◌,
}

abbrev pub Jar : Type 0
Jar = List (Text × Text)

-- The text before the first c, and the text after it.
unfoldable pub before : ℕ → Text → Text
before c [] = []
before c (d ∷ s) = let rest = before c s in if d == c then [] else d ∷ rest

unfoldable pub after : ℕ → Text → Text
after c [] = []
after c (d ∷ s) = let rest = after c s in if d == c then s else rest

-- A cookie of the same name is replaced where it stands.
unfoldable pub put : Text → Text → Jar → Jar
put name value [] = (name, value) ∷ []
put name value ((n, v) ∷ jar) =
    let rest = put name value jar in if same n name then (name, value) ∷ jar else (n, v) ∷ rest

unfoldable pub remove : Text → Jar → Jar
remove name [] = []
remove name ((n, v) ∷ jar) =
    let rest = remove name jar in if same n name then rest else (n, v) ∷ rest

-- A name and a value are taken without the blanks around them: spaces and tabs.
abbrev is_blank : ℕ → Bool
is_blank c = c == b' ' || c == 9

unfoldable pub strip_start : Text → Text
strip_start [] = []
strip_start (c ∷ s) = let rest = strip_start s in if is_blank c then rest else c ∷ s

abbrev strip_before : ℕ → Text → Text
strip_before c [] = if is_blank c then [] else c ∷ []
strip_before c (d ∷ s) = c ∷ (d ∷ s)

unfoldable pub strip_end : Text → Text
strip_end [] = []
strip_end (c ∷ s) = strip_before c (strip_end s)

unfoldable pub strip : Text → Text
unfolding strip_start strip_end
strip s = strip_end (strip_start s)

-- The date of the attribute `expires` where it is the first.
unfoldable pub date_of : Text → Text
unfolding before after
date_of text = before b';' (after b'=' (after b';' text))

-- `accepts` says which names and values the browser takes, and `expired` which dates are over; a
-- cookie that is over at once is taken off.
unfoldable pub assign_dated : (Text → Text → Bool) → (Text → Bool) → Text → Jar → Jar
unfolding date_of strip put remove before after
assign_dated accepts expired text jar =
    let pair = before b';' text in
    let name = strip (before b'=' pair) in
    let value = strip (after b'=' pair) in
    let kept = if expired (date_of text) then remove name jar else put name value jar in
    if accepts name value then kept else jar

-- A cookie that the browser takes and whose date is to come.
unfoldable pub assign : Text → Jar → Jar
unfolding assign_dated
assign text jar = assign_dated (λ name value. true) (λ date. false) text jar

unfoldable pub jar_lookup : Text → Jar → Option Text
jar_lookup name [] = none
jar_lookup name ((n, v) ∷ jar) = if same n name then some v else jar_lookup name jar

abbrev pair_text : Text × Text → Text
pair_text (n, v) = n ++ b'=' ∷ v

unfoldable pub cookie_text : Jar → Text
cookie_text [] = []
cookie_text (e ∷ []) = pair_text e
cookie_text (e ∷ f ∷ jar) = pair_text e ++ b';' ∷ (b' ' ∷ cookie_text (f ∷ jar))
