-- ===== src/Cookies/Tests.antt =====
-- Cookies at concrete jars.
use cidemis.Base.{
  ℕ, ◌+◌, ◌*◌, ◌≡◌, refl, Bool, true, false, none, some, [], ◌∷◌, Text, codes, same, split,
  split_from, starts_with, if◌then◌else◌, All, arith, leb, ◌==◌,
}
use cidemis.Cookies.{read_parts, get_cookie_value, set_cookie}
use cidemis.Cookies.Jar.{
  Jar, put, remove, strip, strip_start, strip_end, date_of, assign_dated, assign, before, after,
  cookie_text,
}
use cidemis.Cookies.Assign.{IsStripped, get_cookie_value-set_cookie}
use cidemis.Cookies.RoundTrip.{IsCookie, Distinct}
use cidemis.Cookies.Assign.{get_cookie_value-set_cookie}

-- a=1; ba=2
abbrev jar : Jar
jar = (b'a' ∷ [], b'1' ∷ []) ∷ (b'b' ∷ b'a' ∷ [], b'2' ∷ []) ∷ []

abbrev print_time : ℕ → Text
print_time n = b'T' ∷ []

shown : cookie_text jar ≡ codes "a=1; ba=2"
unfolding cookie_text codes
shown = refl

read : get_cookie_value (codes "a=1; ba=2") (codes "ba") ≡ some (codes "2")
unfolding get_cookie_value split split_from starts_with read_parts codes
read = refl

unknown : get_cookie_value (codes "a=1; ba=2") (codes "b") ≡ none
unfolding get_cookie_value split split_from starts_with read_parts codes
unknown = refl

written :
    cookie_text (assign (set_cookie print_time 0 (codes "ba") (codes "false") 1) jar)
    ≡ codes "a=1; ba=false"
unfolding assign assign_dated date_of strip strip_start strip_end set_cookie put before after same
    cookie_text codes
written = refl

jar_cookies : All IsCookie jar
jar_cookies = omega arith

jar-Distinct : Distinct jar
unfolding same
jar-Distinct = ((refl, tt), (tt, tt))

abbrev is_over : Text → Bool
is_over date = same date (print_time 0)

abbrev takes : Text → Text → Bool
takes n v = true

-- The date of the time 0 is over at the time 5.
abbrev print_seconds : ℕ → Text
print_seconds n = if leb n 5 then print_time 0 else b'L' ∷ []

expires :
    cookie_text
      (assign_dated takes is_over (set_cookie print_seconds 5 (codes "ba") (codes "false") 0) jar)
    ≡ codes "a=1"
unfolding assign_dated date_of strip strip_start strip_end set_cookie remove before after same
    cookie_text codes
expires = refl

blanks : cookie_text (assign (codes " ba = x ; path=/") jar) ≡ codes "a=1; ba=x"
unfolding assign assign_dated date_of strip strip_start strip_end put before after same cookie_text
    codes
blanks = refl

not_over : is_over (print_seconds (5 + 1 * 24 * 60 * 60 * 1000)) ≡ false
unfolding same
not_over = refl

stripped : IsStripped (b'a' ∷ [], b'0' ∷ [])
unfolding strip strip_start strip_end
stripped = (refl, refl)

get_cookie_value-set_cookie_example :
    get_cookie_value
      (cookie_text
        (assign_dated takes is_over (set_cookie print_seconds 5 (b'a' ∷ []) (b'0' ∷ []) 1) jar))
      (b'a' ∷ [])
    ≡ (if same (b'a' ∷ []) (b'a' ∷ [])
        then (if 1 == 0 then none else some (b'0' ∷ []))
        else get_cookie_value (cookie_text jar) (b'a' ∷ []))
get_cookie_value-set_cookie_example =
    get_cookie_value-set_cookie takes is_over print_seconds 5 1 (b'a' ∷ []) (b'0' ∷ []) (b'a' ∷ [])
      jar refl (omega arith) not_over (omega arith) stripped (omega arith) jar_cookies jar-Distinct
