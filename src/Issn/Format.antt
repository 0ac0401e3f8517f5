-- ===== src/Issn/Format.antt =====
-- The form of a printed ISSN together with its check digit: the two tests that `verifdemande` makes
-- of a number before it asks the server.
use cidemis.Base.{
  ℕ, ◌+◌, ◌*◌, ◌%◌, ◌≡◌, refl, true, false, [], ◌∷◌, Text, ◌==◌, arith, All, All-append, inl, inr,
  ◌↔◌, ==_iff, Bool-cases, ap, ◌∙◌, sym,
}
use cidemis.Base.Int.{pos}
use cidemis.Issn.{num, weighted, eleven_divides, drop_hyphen, checksum_ok, issn_format, is_digit}
use cidemis.Issn.Sum.{worth, IsIssnChar, position_sum, drop_hyphen_none, checksum_ok-position_sum}
use cidemis.Issn.Digits.{checksum_ok_small_x}

abbrev IsDigit : ℕ → Type 0
IsDigit c = is_digit c ≡ true

-- Four digits, a hyphen, three digits and a check character, a digit or a capital X, so that the
-- sum of the eight, weighted from 8 down to 1, is divisible by 11.
pub record IsIssn (s : Text) : Type 0 where
  pub a : ℕ
  pub b : ℕ
  pub c : ℕ
  pub d : ℕ
  pub e : ℕ
  pub f : ℕ
  pub g : ℕ
  pub k : ℕ
  pub spelled : s ≡ a ∷ b ∷ c ∷ d ∷ b'-' ∷ e ∷ f ∷ g ∷ k ∷ []
  pub digits : All IsDigit (a ∷ b ∷ c ∷ d ∷ e ∷ f ∷ g ∷ [])
  check : IsIssnChar k
  divides :
      (8 * worth a
          + 7 * worth b
          + 6 * worth c
          + 5 * worth d
          + 4 * worth e
          + 3 * worth f
          + 2 * worth g
          + worth k)
        % 11
      ≡ 0

-- The hyphen goes, and nothing else.
drop_hyphen_printed :
    (a b c d : ℕ) (t : Text)
    → All IsDigit (a ∷ b ∷ c ∷ d ∷ [])
    → drop_hyphen (a ∷ b ∷ c ∷ d ∷ b'-' ∷ t) ≡ a ∷ b ∷ c ∷ d ∷ t
unfolding drop_hyphen
drop_hyphen_printed a b c d t h = ground arith

checksum_ok-drop_hyphen :
    (s t : Text) → drop_hyphen s ≡ drop_hyphen t → checksum_ok s ≡ checksum_ok t
unfolding checksum_ok
checksum_ok-drop_hyphen s t e = ap (λ x. eleven_divides (weighted 0 x (num (pos 0)))) e

All-IsIssnChar : (s : Text) → All IsDigit s → All IsIssnChar s
All-IsIssnChar [] h = tt
All-IsIssnChar (c ∷ s) (p, h) = (inl p, All-IsIssnChar s h)

module _ (a b c d e f g k : ℕ) (h : All IsDigit (a ∷ b ∷ c ∷ d ∷ e ∷ f ∷ g ∷ []))
    (l : IsIssnChar k) where
  eight : All IsIssnChar (a ∷ b ∷ c ∷ d ∷ e ∷ f ∷ g ∷ k ∷ [])
  eight =
      All-append IsIssnChar (a ∷ b ∷ c ∷ d ∷ e ∷ f ∷ g ∷ []) (k ∷ [])
        (All-IsIssnChar (a ∷ b ∷ c ∷ d ∷ e ∷ f ∷ g ∷ []) h) (l, tt)

  -- The test of a printed number is the weighted sum of its eight characters.
  checksum_ok_printed :
      checksum_ok (a ∷ b ∷ c ∷ d ∷ b'-' ∷ e ∷ f ∷ g ∷ k ∷ [])
      ≡ (position_sum (a ∷ b ∷ c ∷ d ∷ e ∷ f ∷ g ∷ k ∷ []) % 11 == 0)
  checksum_ok_printed =
      checksum_ok-drop_hyphen _ _ (
        drop_hyphen_printed a b c d (e ∷ f ∷ g ∷ k ∷ []) (ground arith)
        ∙ sym (drop_hyphen_none _ eight))
      ∙ checksum_ok-position_sum _ eight refl

IsIssn-format : {s : Text} → IsIssn s → issn_format s ≡ true
unfolding issn_format
IsIssn-format i = rw i.spelled (ground arith)

IsIssn-checksum : {s : Text} → IsIssn s → checksum_ok s ≡ true
IsIssn-checksum i =
    ap checksum_ok i.spelled
    ∙ checksum_ok_printed i.a i.b i.c i.d i.e i.f i.g i.k i.digits i.check
    ∙ (==_iff _ 0).1 (omega (arith, i.divides))

small_x :
    (a b c d e f g k : ℕ)
    → k ≡ b'x'
    → checksum_ok (a ∷ b ∷ c ∷ d ∷ b'-' ∷ e ∷ f ∷ g ∷ k ∷ []) ≡ false
small_x a b c d e f g k x = rw x (checksum_ok_small_x (a ∷ b ∷ c ∷ d ∷ b'-' ∷ e ∷ f ∷ g ∷ []))

sum_divides :
    (a b c d e f g k : ℕ)
    → position_sum (a ∷ b ∷ c ∷ d ∷ e ∷ f ∷ g ∷ k ∷ []) % 11 ≡ 0
    → (8 * worth a
          + 7 * worth b
          + 6 * worth c
          + 5 * worth d
          + 4 * worth e
          + 3 * worth f
          + 2 * worth g
          + worth k)
        % 11
      ≡ 0
sum_divides a b c d e f g k h = omega arith

-- A text that both tests accept is an ISSN.
pub format-checksum-IsIssn : (s : Text) → issn_format s ≡ true → checksum_ok s ≡ true → IsIssn s
unfolding issn_format
format-checksum-IsIssn (a ∷ b ∷ c ∷ d ∷ h ∷ e ∷ f ∷ g ∷ k ∷ []) form ok =
    let hyphen : h ≡ b'-' = ground arith in
    let digits : All IsDigit (a ∷ b ∷ c ∷ d ∷ e ∷ f ∷ g ∷ []) = ground arith in
    let ok' : checksum_ok (a ∷ b ∷ c ∷ d ∷ b'-' ∷ e ∷ f ∷ g ∷ k ∷ []) ≡ true = rw hyphen at ok in
    elim (Bool-cases (k == b'x')) [
      | inl small ↦ cc (ok', small_x a b c d e f g k ((==_iff k b'x').0 small))
      | inr large ↦
          let check : IsIssnChar k = ground arith in
          record {
            a = a;
            b = b;
            c = c;
            d = d;
            e = e;
            f = f;
            g = g;
            k = k;
            spelled = ap (λ x. a ∷ b ∷ c ∷ d ∷ x ∷ e ∷ f ∷ g ∷ k ∷ []) hyphen;
            digits = digits;
            check = check;
            divides =
                sum_divides a b c d e f g k
                  ((==_iff _ 0).0 (sym (checksum_ok_printed a b c d e f g k digits check) ∙ ok'));
          }
    ]
format-checksum-IsIssn _ form ok = cc

-- The format test and the check digit test of an ISSN together accept exactly the texts of four
-- digits, a hyphen, three digits and a digit or capital X whose sum with the weights 8 to 1 is
-- divisible by 11.
pub format-checksum-IsIssn_iff :
    (s : Text) → ((issn_format s ≡ true) × (checksum_ok s ≡ true)) ↔ IsIssn s
format-checksum-IsIssn_iff s =
    (λ p. format-checksum-IsIssn s p.0 p.1, λ i. (IsIssn-format i, IsIssn-checksum i))
