-- ===== src/Cookies/Assign.antt =====
-- `setCookie` puts a cookie into the jar and leaves the others.
use mathlib.Core.Path.{subst}
use cidemis.Base.{
  ℕ, ◌≡◌, ◌≢◌, refl, sym, ap, ◌∙◌, ◌+◌, ◌*◌, Bool, true, false, Option, none, some, [], ◌∷◌, codes,
  ◌==◌, ◌++◌, append_assoc, Text, same, All, All-append, if◌then◌else◌, Bool-cases, inl, inr, arith,
}
use cidemis.Base.Strings.Laws.{same_comm, same_refl, same→eq}
use cidemis.Base.Strings.Split.{Lacks}
use cidemis.Cookies.{get_cookie_value, set_cookie}
use cidemis.Cookies.Jar.{
  Jar, before, after, put, remove, strip, date_of, assign_dated, assign, jar_lookup, cookie_text,
}
use cidemis.Cookies.RoundTrip.{IsCookie, Absent, Distinct, get_cookie_value-lookup}

before-append : (c : ℕ) (p t : Text) → Lacks c p → before c (p ++ c ∷ t) ≡ p
unfolding before
before-append c [] t h = ground arith
before-append c (d ∷ p) t (n, h) = ground (arith, before-append c p t h)

after-append : (c : ℕ) (p t : Text) → Lacks c p → after c (p ++ c ∷ t) ≡ t
unfolding after
after-append c [] t h = ground arith
after-append c (d ∷ p) t (n, h) = ground (arith, after-append c p t h)

pair-Lacks : (n v : Text) → IsCookie (n, v) → Lacks b';' (n ++ b'=' ∷ v)
pair-Lacks n v k =
    let rest : Lacks b';' (b'=' ∷ v) = (omega arith, k.2) in
    All-append (λ d. d ≢ b';') n (b'=' ∷ v) k.1 rest

-- What `setCookie` writes for a cookie, and its attributes.
abbrev attributes : Text → Text
attributes date = (codes "expires=" ++ date) ++ (b';' ∷ codes "path=/")

abbrev set_text : Text → Text → Text → Text
set_text n v date = n ++ (b'=' ∷ (v ++ (b';' ∷ attributes date)))

attributes-after : (date : Text) → after b'=' (attributes date) ≡ date ++ b';' ∷ codes "path=/"
unfolding after codes
attributes-after date = refl

-- A name and a value without blanks around them.
abbrev pub IsStripped : Text × Text → Type 0
IsStripped (n, v) = (strip n ≡ n) × (strip v ≡ v)

pair_of : (n v date : Text) → IsCookie (n, v) → before b';' (set_text n v date) ≡ n ++ b'=' ∷ v
pair_of n v date k =
    ap (before b';') (sym (append_assoc n (b'=' ∷ v) (b';' ∷ attributes date)))
    ∙ before-append b';' (n ++ b'=' ∷ v) (attributes date) (pair-Lacks n v k)

date_of-set_text :
    (n v date : Text) → IsCookie (n, v) → Lacks b';' date → date_of (set_text n v date) ≡ date
unfolding date_of
date_of-set_text n v date k l =
    let rest : after b';' (set_text n v date) ≡ attributes date =
      ap (after b';') (sym (append_assoc n (b'=' ∷ v) (b';' ∷ attributes date)))
      ∙ after-append b';' (n ++ b'=' ∷ v) (attributes date) (pair-Lacks n v k) in
    rw (rest, attributes-after date, before-append b';' date (codes "path=/") l) refl

assign_dated-set :
    (accepts : Text → Text → Bool) (expired : Text → Bool) (n v date : Text) (jar : Jar)
    → IsCookie (n, v)
    → IsStripped (n, v)
    → let over = expired (date_of (set_text n v date)) in
      assign_dated accepts expired (set_text n v date) jar
      ≡ (if accepts n v then (if over then remove n jar else put n v jar) else jar)
unfolding assign_dated
assign_dated-set accepts expired n v date jar k (sn, sv) =
    rw (pair_of n v date k, before-append b'=' n v k.0, after-append b'=' n v k.0, sn, sv) refl

assign-put :
    (n v date : Text) (jar : Jar)
    → IsCookie (n, v)
    → IsStripped (n, v)
    → assign (set_text n v date) jar ≡ put n v jar
unfolding assign
assign-put n v date jar k s = assign_dated-set (λ name value. true) (λ d. false) n v date jar k s

jar_lookup-put :
    (name n v : Text) (jar : Jar)
    → jar_lookup name (put n v jar) ≡ (if same n name then some v else jar_lookup name jar)
unfolding jar_lookup put
jar_lookup-put name n v [] = refl
jar_lookup-put name n v ((m, w) ∷ jar) = elim (Bool-cases (same m n)) [
  | inl here ↦ ground (arith, same→eq m n here)
  | inr other ↦
      ground (arith, same→eq m name, same→eq n name, same_refl n, jar_lookup-put name n v jar)
]

put-IsCookie :
    (n v : Text) (jar : Jar) → IsCookie (n, v) → All IsCookie jar → All IsCookie (put n v jar)
unfolding put
put-IsCookie n v [] k ks = (k, tt)
put-IsCookie n v ((m, w) ∷ jar) k (j, ks) = elim (Bool-cases (same m n)) [
  | inl here ↦ rw here (k, ks)
  | inr other ↦ rw other (j, put-IsCookie n v jar k ks)
]

put-Absent :
    (name n v : Text) (jar : Jar)
    → same n name ≡ false
    → Absent name jar
    → Absent name (put n v jar)
unfolding put
put-Absent name n v [] h a = (h, tt)
put-Absent name n v ((m, w) ∷ jar) h (a, as') = elim (Bool-cases (same m n)) [
  | inl here ↦ rw here (h, as')
  | inr other ↦ rw other (a, put-Absent name n v jar h as')
]

put-Distinct : (n v : Text) (jar : Jar) → Distinct jar → Distinct (put n v jar)
unfolding put
put-Distinct n v [] d = (tt, tt)
put-Distinct n v ((m, w) ∷ jar) (a, d) = elim (Bool-cases (same m n)) [
  | inl here ↦ rw here (subst (λ x. Absent x jar) (same→eq m n here) a, d)
  | inr other ↦ rw other (put-Absent m n v jar (same_comm n m ∙ other) a, put-Distinct n v jar d)
]

jar_lookup-remove :
    (name n : Text) (jar : Jar)
    → jar_lookup name (remove n jar) ≡ (if same n name then none else jar_lookup name jar)
unfolding jar_lookup remove
jar_lookup-remove name n [] = ground arith
jar_lookup-remove name n ((m, w) ∷ jar) = elim (Bool-cases (same m n)) [
  | inl here ↦ ground (arith, same→eq m n here, jar_lookup-remove name n jar)
  | inr other ↦
      ground (arith, same→eq m name, same→eq n name, same_refl n, jar_lookup-remove name n jar)
]

remove-IsCookie : (n : Text) (jar : Jar) → All IsCookie jar → All IsCookie (remove n jar)
unfolding remove
remove-IsCookie n [] ks = tt
remove-IsCookie n ((m, w) ∷ jar) (j, ks) = elim (Bool-cases (same m n)) [
  | inl here ↦ rw here (remove-IsCookie n jar ks)
  | inr other ↦ rw other (j, remove-IsCookie n jar ks)
]

remove-Absent : (name n : Text) (jar : Jar) → Absent name jar → Absent name (remove n jar)
unfolding remove
remove-Absent name n [] a = tt
remove-Absent name n ((m, w) ∷ jar) (a, as') = elim (Bool-cases (same m n)) [
  | inl here ↦ rw here (remove-Absent name n jar as')
  | inr other ↦ rw other (a, remove-Absent name n jar as')
]

remove-Distinct : (n : Text) (jar : Jar) → Distinct jar → Distinct (remove n jar)
unfolding remove
remove-Distinct n [] d = tt
remove-Distinct n ((m, w) ∷ jar) (a, d) = elim (Bool-cases (same m n)) [
  | inl here ↦ rw here (remove-Distinct n jar d)
  | inr other ↦ rw other (remove-Absent m n jar a, remove-Distinct n jar d)
]

get_cookie_value-put :
    (n v name : Text) (jar : Jar)
    → IsCookie (n, v)
    → Lacks b'=' name
    → All IsCookie jar
    → Distinct jar
    → get_cookie_value (cookie_text (put n v jar)) name
      ≡ (if same n name then some v else get_cookie_value (cookie_text jar) name)
get_cookie_value-put n v name jar k h ks d =
    get_cookie_value-lookup name (put n v jar) h (put-IsCookie n v jar k ks)
      (put-Distinct n v jar d)
    ∙ jar_lookup-put name n v jar
    ∙ ap (λ (o : Option Text). if same n name then some v else o)
        (sym (get_cookie_value-lookup name jar h ks d))

get_cookie_value-remove :
    (n name : Text) (jar : Jar)
    → Lacks b'=' name
    → All IsCookie jar
    → Distinct jar
    → get_cookie_value (cookie_text (remove n jar)) name
      ≡ (if same n name then none else get_cookie_value (cookie_text jar) name)
get_cookie_value-remove n name jar h ks d =
    get_cookie_value-lookup name (remove n jar) h (remove-IsCookie n jar ks)
      (remove-Distinct n jar d)
    ∙ jar_lookup-remove name n jar
    ∙ ap (λ (o : Option Text). if same n name then none else o)
        (sym (get_cookie_value-lookup name jar h ks d))

-- The time that `setCookie` writes.
abbrev pub end_of : ℕ → ℕ → ℕ
end_of now days = now + days * 24 * 60 * 60 * 1000

-- What `getCookieValue` finds after `setCookie` with a date to come.
pub get_cookie_value-assign :
    (to_utc_string : ℕ → Text) (now days : ℕ) (n v name : Text) (jar : Jar)
    → IsCookie (n, v)
    → IsStripped (n, v)
    → Lacks b'=' name
    → All IsCookie jar
    → Distinct jar
    → get_cookie_value (cookie_text (assign (set_cookie to_utc_string now n v days) jar)) name
      ≡ (if same n name then some v else get_cookie_value (cookie_text jar) name)
unfolding set_cookie
get_cookie_value-assign to_utc_string now days n v name jar k s h ks d =
    ap (λ j. get_cookie_value (cookie_text j) name)
      (assign-put n v (to_utc_string (end_of now days)) jar k s)
    ∙ get_cookie_value-put n v name jar k h ks d

-- After `setCookie` with a name and a value that the browser takes, that are well-formed (no =
-- and ; in the name, no ; in the value) and have no blanks around them, on a jar of well-formed
-- cookies with different names, `getCookieValue` of a name without = answers, if it is that name,
-- the value that was set, and nothing where the number of days is 0, and otherwise what it
-- answered before; the browser reads the printed date, in which there is no ;, as over exactly if
-- the number of days is 0.
pub get_cookie_value-set_cookie :
    (accepts : Text → Text → Bool) (expired : Text → Bool) (to_utc_string : ℕ → Text) (now days : ℕ)
    (n v name : Text) (jar : Jar)
    → accepts n v ≡ true
    → Lacks b';' (to_utc_string (end_of now days))
    → expired (to_utc_string (end_of now days)) ≡ (days == 0)
    → IsCookie (n, v)
    → IsStripped (n, v)
    → Lacks b'=' name
    → All IsCookie jar
    → Distinct jar
    → get_cookie_value
        (cookie_text (assign_dated accepts expired (set_cookie to_utc_string now n v days) jar))
        name
      ≡ (if same n name
          then (if days == 0 then none else some v)
          else get_cookie_value (cookie_text jar) name)
unfolding set_cookie
get_cookie_value-set_cookie accepts expired to_utc_string now days n v name jar t l e k s h ks d =
    let date = to_utc_string (end_of now days) in
    let set : assign_dated accepts expired (set_cookie to_utc_string now n v days) jar
        ≡ (if days == 0 then remove n jar else put n v jar) =
      assign_dated-set accepts expired n v date jar k s
      ∙ rw (date_of-set_text n v date k l, t, e) refl in
    ap (λ j. get_cookie_value (cookie_text j) name) set ∙ elim (Bool-cases (days == 0)) [
      | inl now_over ↦ rw now_over (get_cookie_value-remove n name jar h ks d)
      | inr to_come ↦ rw to_come (get_cookie_value-put n v name jar k h ks d)
    ]

-- A jar of well-formed cookies with different names.
abbrev pub IsJar : Jar → Type 0
IsJar jar = All IsCookie jar × Distinct jar

pub set_cookie-IsJar :
    (to_utc_string : ℕ → Text) (now days : ℕ) (n v : Text) (jar : Jar)
    → IsCookie (n, v)
    → IsStripped (n, v)
    → IsJar jar
    → IsJar (assign (set_cookie to_utc_string now n v days) jar)
unfolding set_cookie
set_cookie-IsJar to_utc_string now days n v jar k s (ks, d) =
    subst IsJar (sym (assign-put n v (to_utc_string (end_of now days)) jar k s))
      (put-IsCookie n v jar k ks, put-Distinct n v jar d)
