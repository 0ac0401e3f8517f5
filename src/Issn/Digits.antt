-- ===== src/Issn/Digits.antt =====
-- What the check digit is worth: the errors that it detects, and that every number has one.
use cidemis.Base.{
  ℕ, zero, suc, ◌+◌, ◌-◌, ◌*◌, ◌%◌, ◌≤◌, ◌<◌, ◌≡◌, refl, ◌≢◌, true, false, [], ◌∷◌, Text, ◌==◌,
  if◌then◌else◌, arith, length, All, All-append, inl, inr, ◌++◌, length-append, ==_iff, Bool-cases,
}
use cidemis.Base.Int.{pos}
use cidemis.Issn.{nan, num, char_value, eleven_divides, drop_hyphen, checksum_ok}
use cidemis.Issn.Sum.{
  worth, IsIssnChar, position_sum, checksum_ok-position_sum, position_sum-replace,
  position_sum-transpose, weighted-nan,
}

worth_le : (c : ℕ) → IsIssnChar c → worth c ≤ 10
worth_le c h = ground arith

-- Two values below 11 whose difference, times a weight of an ISSN, is a multiple of 11 are equal.
weight_prime :
    (a b s t w : ℕ)
    → a ≤ 10
    → b ≤ 10
    → w < 8
    → s + b * suc w ≡ t + a * suc w
    → s % 11 ≡ 0
    → t % 11 ≡ 0
    → a ≡ b
weight_prime a b s t zero ha hb hw e p q = omega arith
weight_prime a b s t (suc zero) ha hb hw e p q = omega arith
weight_prime a b s t (suc (suc zero)) ha hb hw e p q = omega arith
weight_prime a b s t (suc (suc (suc zero))) ha hb hw e p q = omega arith
weight_prime a b s t (suc (suc (suc (suc zero)))) ha hb hw e p q = omega arith
weight_prime a b s t (suc (suc (suc (suc (suc zero))))) ha hb hw e p q = omega arith
weight_prime a b s t (suc (suc (suc (suc (suc (suc zero)))))) ha hb hw e p q = omega arith
weight_prime a b s t (suc (suc (suc (suc (suc (suc (suc zero))))))) ha hb hw e p q = omega arith
weight_prime a b s t (suc (suc (suc (suc (suc (suc (suc (suc w)))))))) ha hb hw e p q =
    absurd (omega arith)

accepted :
    (s : Text) → All IsIssnChar s → length s ≡ 8 → checksum_ok s ≡ true → position_sum s % 11 ≡ 0
accepted s h e ok = ground (arith, checksum_ok-position_sum s h e)

middle : (u v : Text) (c : ℕ) → All IsIssnChar (u ++ c ∷ v) → IsIssnChar c
middle [] v c h = h.0
middle (a ∷ u) v c h = middle u v c h.1

length_same : (u v : Text) (c d : ℕ) → length (u ++ c ∷ v) ≡ 8 → length (u ++ d ∷ v) ≡ 8
length_same u v c d e = omega (arith, length-append u (c ∷ v), length-append u (d ∷ v))

x_is_nan : char_value b'x' ≡ nan
unfolding char_value
x_is_nan = refl

drop_hyphen-snoc : (s : Text) → drop_hyphen (s ++ b'x' ∷ []) ≡ drop_hyphen s ++ b'x' ∷ []
unfolding drop_hyphen
drop_hyphen-snoc [] = refl
drop_hyphen-snoc (c ∷ s) = ground (arith, drop_hyphen-snoc s)

-- Of two texts of eight digits or X that differ in one character, with different values, the
-- check digit test does not accept both.
pub checksum_ok-replace :
    (u v : Text) (c d : ℕ)
    → All IsIssnChar (u ++ c ∷ v)
    → All IsIssnChar (u ++ d ∷ v)
    → length (u ++ c ∷ v) ≡ 8
    → worth c ≢ worth d
    → checksum_ok (u ++ c ∷ v) ≡ true
    → checksum_ok (u ++ d ∷ v) ≡ false
checksum_ok-replace u v c d hc hd e ne ok = elim (Bool-cases (checksum_ok (u ++ d ∷ v))) [
  | inr no_good ↦ no_good
  | inl ok' ↦ absurd (
      ne (
        weight_prime (worth c) (worth d) (position_sum (u ++ c ∷ v)) (position_sum (u ++ d ∷ v))
          (length v) (worth_le c (middle u v c hc)) (worth_le d (middle u v d hd))
          (omega (arith, length-append u (c ∷ v))) (position_sum-replace u v c d)
          (accepted _ hc e ok) (accepted _ hd (length_same u v c d e) ok')))
]

-- Of two texts of eight digits or X that differ by an exchange of two neighbours with different
-- values, the check digit test does not accept both.
checksum_ok-transpose :
    (u v : Text) (c d : ℕ)
    → All IsIssnChar (u ++ c ∷ d ∷ v)
    → All IsIssnChar (u ++ d ∷ c ∷ v)
    → length (u ++ c ∷ d ∷ v) ≡ 8
    → worth c ≢ worth d
    → checksum_ok (u ++ c ∷ d ∷ v) ≡ true
    → checksum_ok (u ++ d ∷ c ∷ v) ≡ false
checksum_ok-transpose u v c d hc hd e ne ok = elim (Bool-cases (checksum_ok (u ++ d ∷ c ∷ v))) [
  | inr no_good ↦ no_good
  | inl ok' ↦ absurd (
      ne (
        weight_prime (worth c) (worth d) (position_sum (u ++ c ∷ d ∷ v))
          (position_sum (u ++ d ∷ c ∷ v)) 0 (worth_le c (middle u (d ∷ v) c hc))
          (worth_le d (middle u (c ∷ v) d hd)) (omega arith)
          (omega (arith, position_sum-transpose u v c d)) (accepted _ hc e ok)
          (accepted _ hd (omega (arith, length-append u (c ∷ d ∷ v), length-append u (d ∷ c ∷ v)))
            ok')))
]

-- The character whose worth is n.
abbrev pub check_char : ℕ → ℕ
check_char n = if n == 10 then b'X' else n + b'0'

check_char-IsIssnChar : (n : ℕ) → n ≤ 10 → IsIssnChar (check_char n)
check_char-IsIssnChar n h = ground arith

worth-check_char : (n : ℕ) → n ≤ 10 → worth (check_char n) ≡ n
worth-check_char n h = ground arith

position_sum-snoc :
    (s : Text) (c : ℕ) → position_sum (s ++ c ∷ []) ≡ position_sum (s ++ b'0' ∷ []) + worth c
position_sum-snoc s c = omega (arith, position_sum-replace s [] c b'0')

-- Every seven digits or X can be completed by one more such character, computed from their sum,
-- to a text that the check digit test accepts.
pub checksum_ok_complete :
    (s : Text)
    → All IsIssnChar s
    → length s ≡ 7
    → checksum_ok (s ++ check_char ((11 - position_sum (s ++ b'0' ∷ []) % 11) % 11) ∷ []) ≡ true
checksum_ok_complete s h e =
    let n = (11 - position_sum (s ++ b'0' ∷ []) % 11) % 11 in
    let le : n ≤ 10 = omega arith in
    let total : position_sum (s ++ check_char n ∷ []) % 11 ≡ 0 =
      omega (arith, position_sum-snoc s (check_char n), worth-check_char n le) in
    let last : All IsIssnChar (check_char n ∷ []) = (check_char-IsIssnChar n le, tt) in
    rw
      (checksum_ok-position_sum (s ++ check_char n ∷ [])
        (All-append IsIssnChar s (check_char n ∷ []) h last)
        (omega (arith, length-append s (check_char n ∷ []))))
      ((==_iff _ _).1 total)

-- The check digit test refuses every text that ends in a small x.
pub checksum_ok_small_x : (s : Text) → checksum_ok (s ++ b'x' ∷ []) ≡ false
unfolding checksum_ok eleven_divides
checksum_ok_small_x s =
    rw (drop_hyphen-snoc s, weighted-nan 0 (drop_hyphen s) [] b'x' (num (pos 0)) x_is_nan)
