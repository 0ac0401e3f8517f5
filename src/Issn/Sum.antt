-- ===== src/Issn/Sum.antt =====
-- The test computes what the comment above `isValidISSN` describes.
use cidemis.Base.{
  ℕ, suc, ◌+◌, ◌-◌, ◌*◌, ◌%◌, ◌≡◌, refl, true, [], ◌∷◌, Text, ◌==◌, if◌then◌else◌, arith, length,
  All, ap, ◌∙◌, ◌++◌, ◌⊎◌,
}
use cidemis.Base.Int.{pos, sub_ℕ, ◌+ℤ◌, ◌*ℤ◌}
use cidemis.Issn.{
  Number, plus, times, nan, num, char_value, weighted, drop_hyphen, checksum_ok, is_digit,
}

-- What a character of an ISSN counts: a digit its value, an X ten.
abbrev pub worth : ℕ → ℕ
worth c = if c == b'X' then 10 else c - b'0'

abbrev pub IsIssnChar : ℕ → Type 0
IsIssnChar c = (is_digit c ≡ true) ⊎ (c ≡ b'X')

-- The sum of the characters, each multiplied by its position counting from the right.
abbrev pub position_sum : Text → ℕ
position_sum [] = 0
position_sum (c ∷ s) = worth c * suc (length s) + position_sum s

char_value-worth : (c : ℕ) → IsIssnChar c → char_value c ≡ num (pos (worth c))
unfolding char_value
char_value-worth c h = ground arith

*ℤ-pos : (a b : ℕ) → pos a *ℤ pos b ≡ pos (a * b)
unfolding ◌*ℤ◌
*ℤ-pos a b = ground arith

+ℤ-pos : (a b : ℕ) → pos a +ℤ pos b ≡ pos (a + b)
unfolding ◌+ℤ◌
+ℤ-pos a b = ground arith

weight_pos : (i l : ℕ) → i + suc l ≡ 8 → sub_ℕ 8 i ≡ pos (suc l)
weight_pos i l e = ground arith

weighted-position_sum :
    (i n : ℕ) (s : Text)
    → All IsIssnChar s
    → i + length s ≡ 8
    → weighted i s (num (pos n)) ≡ num (pos (n + position_sum s))
unfolding weighted
weighted-position_sum i n [] h e = ap num (ap pos (omega arith))
weighted-position_sum i n (c ∷ s) (p, h) e =
    rw (char_value-worth c p, weight_pos i (length s) e, *ℤ-pos, +ℤ-pos)
      (weighted-position_sum (suc i) (n + worth c * suc (length s)) s h (omega arith)
        ∙ ap num (ap pos (omega arith)))

-- A text without a hyphen is left as it is; the hyphen of an ISSN in its printed form goes.
pub drop_hyphen_none : (s : Text) → All IsIssnChar s → drop_hyphen s ≡ s
unfolding drop_hyphen
drop_hyphen_none [] h = refl
drop_hyphen_none (c ∷ s) (p, h) = ground (arith, drop_hyphen_none s h)

-- On eight characters that are digits or X, the test accepts exactly when the sum of the
-- characters, each multiplied by its position counting from the right, is divisible by 11.
pub checksum_ok-position_sum :
    (s : Text) → All IsIssnChar s → length s ≡ 8 → checksum_ok s ≡ (position_sum s % 11 == 0)
unfolding checksum_ok
checksum_ok-position_sum s h e =
    rw (drop_hyphen_none s h, weighted-position_sum 0 0 s h (omega arith)) (ground arith)

-- Text that holds a character which counts for nothing is never accepted: the sum is NaN.
weighted_of_nan : (i : ℕ) (s : Text) → weighted i s nan ≡ nan
unfolding weighted
weighted_of_nan i [] = refl
weighted_of_nan i (c ∷ s) = weighted_of_nan (suc i) s

plus_nan : (n : Number) → plus n nan ≡ nan
plus_nan nan = refl
plus_nan (num a) = refl

pub weighted-nan :
    (i : ℕ) (u v : Text) (c : ℕ) (n : Number) → char_value c ≡ nan → weighted i (u ++ c ∷ v) n ≡ nan
unfolding weighted
weighted-nan i [] v c n h =
    ap (λ x. weighted (suc i) v (plus n (times x (sub_ℕ 8 i)))) h
    ∙ ap (weighted (suc i) v) (plus_nan n)
    ∙ weighted_of_nan (suc i) v
weighted-nan i (d ∷ u) v c n h = weighted-nan (suc i) u v c _ h

length-swap : (u v : Text) (c d : ℕ) → length (u ++ c ∷ v) ≡ length (u ++ d ∷ v)
length-swap [] v c d = refl
length-swap (a ∷ u) v c d = ap suc (length-swap u v c d)

-- What the sum becomes when one character is replaced.
pub position_sum-replace :
    (u v : Text) (c d : ℕ)
    → position_sum (u ++ c ∷ v) + worth d * suc (length v)
      ≡ position_sum (u ++ d ∷ v) + worth c * suc (length v)
position_sum-replace [] v c d = omega arith
position_sum-replace (a ∷ u) v c d =
    rw (length-swap u v c d) (omega (arith, position_sum-replace u v c d))

length-swap_two : (u v : Text) (c d : ℕ) → length (u ++ c ∷ d ∷ v) ≡ length (u ++ d ∷ c ∷ v)
length-swap_two [] v c d = refl
length-swap_two (a ∷ u) v c d = ap suc (length-swap_two u v c d)

-- What the sum becomes when two neighbours change places.
pub position_sum-transpose :
    (u v : Text) (c d : ℕ)
    → position_sum (u ++ c ∷ d ∷ v) + worth d ≡ position_sum (u ++ d ∷ c ∷ v) + worth c
position_sum-transpose [] v c d = omega arith
position_sum-transpose (a ∷ u) v c d =
    rw (length-swap_two u v c d) (omega (arith, position_sum-transpose u v c d))
