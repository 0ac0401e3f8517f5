-- ===== src/Cookies/RoundTrip.antt =====
-- `getCookieValue` finds what is in the jar, and `setCookie` puts it there.
use mathlib.Core.Path.{subst}
use cidemis.Base.{
  ◌≡◌, ◌≢◌, refl, sym, ap, ◌∙◌, false, none, some, [], ◌∷◌, ◌++◌, append_assoc, append-nil, Text,
  same, split, split_from, starts_with, All, All-append, Bool-cases, inl, inr, arith,
}
use cidemis.Base.Strings.Laws.{same→eq}
use cidemis.Base.Strings.Split.{
  Lacks, split_from-append, split_from_sep, split_from-end, split_from_hit, split_from_miss,
}
use cidemis.Cookies.{read_parts, get_cookie_value, first_part}
use cidemis.Cookies.Jar.{Jar, jar_lookup, cookie_text}

-- A cookie that a browser accepts: no semicolon, and no `=` in the name.
abbrev pub IsCookie : Text × Text → Type 0
IsCookie (n, v) = Lacks b'=' n × Lacks b';' n × Lacks b';' v

abbrev pub Absent : Text → Jar → Type 0
Absent name = All (λ (e : Text × Text). same e.0 name ≡ false)

-- No name stands twice.
abbrev pub Distinct : Jar → Type 0
Distinct [] = Unit
Distinct ((n, v) ∷ jar) = Absent n jar × Distinct jar

abbrev separator : Text → Text
separator name = b' ' ∷ (name ++ b'=' ∷ [])

-- The jar's text with a separator before each cookie.
abbrev entries : Jar → Text
entries [] = []
entries ((n, v) ∷ jar) = b';' ∷ (b' ' ∷ (n ++ b'=' ∷ (v ++ entries jar)))

entries-cookie_text :
    (e : Text × Text) (jar : Jar) → b';' ∷ (b' ' ∷ cookie_text (e ∷ jar)) ≡ entries (e ∷ jar)
unfolding cookie_text
entries-cookie_text (n, v) [] = ap (λ t. b';' ∷ (b' ' ∷ (n ++ b'=' ∷ t))) (sym (append-nil v))
entries-cookie_text (n, v) (f ∷ jar) =
    ap (λ t. b';' ∷ (b' ' ∷ t))
      (append_assoc n (b'=' ∷ v) (b';' ∷ (b' ' ∷ cookie_text (f ∷ jar)))
        ∙ ap (λ t. n ++ b'=' ∷ (v ++ t)) (entries-cookie_text f jar))

-- At a cookie's start the separator of a name stands exactly if the cookie has that name.
starts_with-name :
    (name n t : Text)
    → Lacks b'=' name
    → Lacks b'=' n
    → starts_with (name ++ b'=' ∷ []) (n ++ b'=' ∷ t) ≡ same n name
unfolding starts_with same
starts_with-name [] [] t h k = refl
starts_with-name [] (c ∷ n) t h (k, ks) = ground arith
starts_with-name (c ∷ name) [] t (h, hs) k = ground arith
starts_with-name (c ∷ name) (d ∷ n) t (h, hs) (k, ks) =
    ground (arith, starts_with-name name n t hs ks)

starts_with-separator :
    (name n t : Text)
    → Lacks b'=' name
    → Lacks b'=' n
    → starts_with (b';' ∷ separator name) (b';' ∷ (b' ' ∷ (n ++ b'=' ∷ t))) ≡ same n name
unfolding starts_with
starts_with-separator name n t h k = starts_with-name name n t h k

subst-Absent : (n : Text) (name : Text) (jar : Jar) → n ≡ name → Absent n jar → Absent name jar
subst-Absent n name jar e = subst (λ m. Absent m jar) e

read_two : (p q : Text) → read_parts (p ∷ q ∷ []) ≡ first_part (split (b';' ∷ []) q)
unfolding read_parts
read_two p q = refl

-- Reading over a cookie of another name.
module _ (name : Text) (h : Lacks b'=' name) where
  pair-Lacks : (n v : Text) → IsCookie (n, v) → Lacks b';' (b' ' ∷ (n ++ b'=' ∷ v))
  pair-Lacks n v k =
      let rest : Lacks b';' (b'=' ∷ v) = (omega arith, k.2) in
      (omega arith, All-append (λ d. d ≢ b';') n (b'=' ∷ v) k.1 rest)

  split_from-other :
      (n v rest cur : Text)
      → IsCookie (n, v)
      → same n name ≡ false
      → split_from (b';' ∷ separator name) 0 cur (b';' ∷ (b' ' ∷ (n ++ b'=' ∷ (v ++ rest))))
        ≡ split_from (b';' ∷ separator name) 0 (cur ++ b';' ∷ (b' ' ∷ (n ++ b'=' ∷ v))) rest
  split_from-other n v rest cur k ne =
      split_from_miss b';' (separator name) b';' (b' ' ∷ (n ++ b'=' ∷ (v ++ rest))) cur
        (starts_with-separator name n (v ++ rest) h k.0 ∙ ne)
      ∙ ap (λ t. split_from (b';' ∷ separator name) 0 (cur ++ b';' ∷ []) (b' ' ∷ t))
          (sym (append_assoc n (b'=' ∷ v) rest))
      ∙ split_from-append b';' (separator name) (b' ' ∷ (n ++ b'=' ∷ v)) rest (cur ++ b';' ∷ [])
          (pair-Lacks n v k)
      ∙ ap (λ c. split_from (b';' ∷ separator name) 0 c rest)
          (append_assoc cur (b';' ∷ []) (b' ' ∷ (n ++ b'=' ∷ v)))

  -- A jar without the name is one part.
  split_from-Absent :
      (jar : Jar) (cur : Text)
      → All IsCookie jar
      → Absent name jar
      → split_from (b';' ∷ separator name) 0 cur (entries jar) ≡ (cur ++ entries jar) ∷ []
  split_from-Absent [] cur k a = split_from-end b';' (separator name) [] cur tt
  split_from-Absent ((n, v) ∷ jar) cur (k, ks) (a, as') =
      split_from-other n v (entries jar) cur k a
      ∙ split_from-Absent jar (cur ++ b';' ∷ (b' ' ∷ (n ++ b'=' ∷ v))) ks as'
      ∙ ap (λ t. t ∷ [])
          (append_assoc cur (b';' ∷ (b' ' ∷ (n ++ b'=' ∷ v))) (entries jar)
            ∙ ap (λ t. cur ++ b';' ∷ (b' ' ∷ t)) (append_assoc n (b'=' ∷ v) (entries jar)))

  -- The value behind the name: up to the next semicolon, or to the end.
  value_part :
      (v : Text) (jar : Jar)
      → Lacks b';' v
      → first_part (split (b';' ∷ []) (v ++ entries jar)) ≡ some v
  unfolding split
  value_part v [] k =
      ap first_part
        (ap (split_from (b';' ∷ []) 0 []) (append-nil v) ∙ split_from-end b';' [] v [] k)
  value_part v ((n, w) ∷ jar) k = ap first_part (
      split_from-append b';' [] v (entries ((n, w) ∷ jar)) [] k
      ∙ split_from_sep b';' (b' ' ∷ (n ++ b'=' ∷ (w ++ entries jar))) v)

  -- The cookie of the name, at the head.
  split_from-own :
      (n v : Text) (jar : Jar) (cur : Text)
      → IsCookie (n, v)
      → n ≡ name
      → All IsCookie jar
      → Absent name jar
      → read_parts (split_from (b';' ∷ separator name) 0 cur (entries ((n, v) ∷ jar))) ≡ some v
  split_from-own n v jar cur k e ks a =
      ap
        (λ m. read_parts (
          split_from (b';' ∷ separator name) 0 cur
            (b';' ∷ (b' ' ∷ (m ++ b'=' ∷ (v ++ entries jar))))))
        e
      ∙ ap (λ t. read_parts (split_from (b';' ∷ separator name) 0 cur (b';' ∷ (b' ' ∷ t))))
          (sym (append_assoc name (b'=' ∷ []) (v ++ entries jar)))
      ∙ ap read_parts (
          split_from_hit b';' (separator name) (v ++ entries jar) cur
          ∙ ap (◌∷◌ cur) (
              split_from-append b';' (separator name) v (entries jar) [] k.2
              ∙ split_from-Absent jar v ks a))
      ∙ read_two cur (v ++ entries jar)
      ∙ value_part v jar k.2

  read_parts-entries :
      (jar : Jar) (cur : Text)
      → All IsCookie jar
      → Distinct jar
      → read_parts (split_from (b';' ∷ separator name) 0 cur (entries jar)) ≡ jar_lookup name jar
  unfolding jar_lookup
  read_parts-entries [] cur k d = unfold split_from read_parts in refl
  read_parts-entries ((n, v) ∷ jar) cur (k, ks) (a, d) = elim (Bool-cases (same n name)) [
    | inl here ↦ rw here (
        split_from-own n v jar cur k (same→eq n name here) ks
          (subst-Absent n name jar (same→eq n name here) a))
    | inr other ↦ rw other (
        ap read_parts (split_from-other n v (entries jar) cur k other)
        ∙ read_parts-entries jar (cur ++ b';' ∷ (b' ' ∷ (n ++ b'=' ∷ v))) ks d)
  ]

get_cookie_value-nil : (name : Text) → get_cookie_value [] name ≡ none
unfolding get_cookie_value split split_from starts_with read_parts
get_cookie_value-nil [] = refl
get_cookie_value-nil (c ∷ name) = refl

-- On the text of a jar of cookies with different names (no = and ; in a name, no ; in a value),
-- `getCookieValue` of a name without = answers the value of the cookie of exactly that name, and
-- `undefined` if there is none.
pub get_cookie_value-lookup :
    (name : Text) (jar : Jar)
    → Lacks b'=' name
    → All IsCookie jar
    → Distinct jar
    → get_cookie_value (cookie_text jar) name ≡ jar_lookup name jar
unfolding get_cookie_value split cookie_text jar_lookup
get_cookie_value-lookup name [] h k d = get_cookie_value-nil name
get_cookie_value-lookup name (e ∷ jar) h k d =
    ap (λ t. read_parts (split_from (b';' ∷ separator name) 0 [] t)) (entries-cookie_text e jar)
    ∙ read_parts-entries name h (e ∷ jar) [] k d
