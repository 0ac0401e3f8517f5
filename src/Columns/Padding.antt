-- ===== src/Columns/Padding.antt =====
-- Padding with zeros.
use cidemis.Base.{
  ℕ, zero, suc, ◌+◌, ◌-◌, ◌/◌, ◌%◌, ◌<◌, ◌≤◌, ◌≡◌, refl, sym, ap, ◌∙◌, [], ltb-true, ltb-false, ◌∷◌,
  ◌++◌, Text, length, replicate, ltb, less, if◌then◌else◌, arith, Bool-cases, inl, inr,
}
use cidemis.Columns.{pad_within, pad, digits, decimal}

replicate-shift : (k a : ℕ) (s : Text) → replicate k a ++ a ∷ s ≡ replicate (suc k) a ++ s
replicate-shift zero a s = refl
replicate-shift (suc k) a s = ap (λ t. a ∷ t) (replicate-shift k a s)

-- With enough calls, the zeros that are missing are put before the text.
pad_within-zeros :
    (fuel : ℕ) (str : Text) (max : ℕ)
    → max - length str ≤ fuel
    → pad_within fuel str max ≡ replicate (max - length str) b'0' ++ str
unfolding pad_within
pad_within-zeros zero str max h =
    let none_ : max - length str ≡ 0 = omega (arith, h) in rw none_ refl
pad_within-zeros (suc n) str max h = elim (Bool-cases (ltb (length str) max)) [
  | inl short ↦
      let missing : suc (max - suc (length str)) ≡ max - length str =
        omega (arith, ltb-true (length str) max short) in
      rw short (
        pad_within-zeros n (b'0' ∷ str) max (omega (arith, h))
        ∙ replicate-shift (max - suc (length str)) b'0' str
        ∙ ap (λ k. replicate k b'0' ++ str) missing)
  | inr long ↦
      let none_ : max - length str ≡ 0 = omega (arith, ltb-false (length str) max long) in
      rw (long, none_) refl
]

-- Padding puts as many zeros before the text as it lacks to the length that is asked for, and a text
-- that is long enough is left.
pad-replicate : (str : Text) (max : ℕ) → pad str max ≡ replicate (max - length str) b'0' ++ str
unfolding pad
pad-replicate str max = pad_within-zeros max str max (omega arith)

-- Padding is what it calls itself for: the counted calls of the model are enough for any text and
-- length.
pad-pad :
    (str : Text) (max : ℕ)
    → pad str max ≡ (if ltb (length str) max then pad (b'0' ∷ str) max else str)
pad-pad str max = elim (Bool-cases (ltb (length str) max)) [
  | inl short ↦
      let missing : suc (max - suc (length str)) ≡ max - length str =
        omega (arith, ltb-true (length str) max short) in
      rw short (
        pad-replicate str max
        ∙ ap (λ k. replicate k b'0' ++ str) (sym missing)
        ∙ sym (replicate-shift (max - suc (length str)) b'0' str)
        ∙ sym (pad-replicate (b'0' ∷ str) max))
  | inr long ↦
      let none_ : max - length str ≡ 0 = omega (arith, ltb-false (length str) max long) in
      rw long (pad-replicate str max ∙ ap (λ k. replicate k b'0' ++ str) none_)
]

-- The padded number of a column.
abbrev two_digits : ℕ → Text
two_digits i = (b'0' + i / 10) ∷ (b'0' + i % 10) ∷ []

decimal_one : (i : ℕ) → i < 10 → decimal i ≡ (b'0' + i) ∷ []
unfolding decimal digits
decimal_one i h = ground arith

decimal_two : (i : ℕ) → 10 ≤ i → i < 100 → decimal i ≡ two_digits i
unfolding decimal digits
decimal_two zero h k = ground arith
decimal_two (suc i) h k = ground arith

pad-decimal : (i : ℕ) → i < 100 → pad (decimal i) 2 ≡ two_digits i
unfolding pad pad_within
pad-decimal i h = elim (Bool-cases (ltb i 10)) [
  | inl one ↦ rw (decimal_one i (ltb-true i 10 one)) (ground (arith, ltb-true i 10 one))
  | inr two ↦ rw (decimal_two i (ltb-false i 10 two) h) refl
]

-- Up to a hundred columns, the padded numbers of two columns are in the order of the columns.
pub less-pad :
    (i j : ℕ) → i < 100 → j < 100 → less (pad (decimal i) 2) (pad (decimal j) 2) ≡ ltb i j
unfolding less
less-pad i j h k = rw (pad-decimal i h, pad-decimal j k) (ground arith)
