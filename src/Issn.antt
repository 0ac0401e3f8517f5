-- ===== src/Issn.antt =====
-- The check digit of an ISSN: the first half of `isValidISSN` and the format test of `verifdemande`
-- (web/src/main/webapp/view/static/js/scripts.js).
pub mod Sum
pub mod Digits
pub mod Format
pub mod Regular
mod Tests
use cidemis.Base.{
  ℕ, zero, suc, ◌+◌, ◌-◌, ◌%◌, Bool, true, false, ◌&&◌, ◌||◌, List, [], ◌∷◌, Text, leb, ◌==◌,
  if◌then◌else◌,
}
use cidemis.Base.Int.{ℤ, pos, negsuc, sub_ℕ, ◌+ℤ◌, ◌*ℤ◌}

-- The numbers that the script computes with.
pub data Number : Type 0 where
  nan : Number
  num : ℤ → Number

abbrev plus : Number → Number → Number
plus nan b = nan
plus (num a) nan = nan
plus (num a) (num b) = num (a +ℤ b)

abbrev times : Number → ℤ → Number
times nan k = nan
times (num a) k = num (a *ℤ k)

abbrev pub is_digit : ℕ → Bool
is_digit c = leb b'0' c && leb c b'9'

-- `parseInt(c === 'X' ? 10 : c)` for one code unit.
unfoldable pub char_value : ℕ → Number
char_value c = if c == b'X' then num (pos 10) else if is_digit c then num (pos (c - b'0')) else nan

-- The loop of `isValidISSN`, from its round `i` on.
unfoldable pub weighted : ℕ → Text → Number → Number
weighted i [] sum = sum
weighted i (c ∷ s) sum = weighted (suc i) s (plus sum (times (char_value c) (sub_ℕ 8 i)))

-- `sum % 11 !== 0` fails: `%` takes its sign from `sum`, and -0 is 0.
unfoldable pub eleven_divides : Number → Bool
eleven_divides nan = false
eleven_divides (num (pos n)) = n % 11 == 0
eleven_divides (num (negsuc n)) = suc n % 11 == 0

-- `s.replace('-', '')` takes out the first hyphen.
unfoldable pub drop_hyphen : Text → Text
drop_hyphen [] = []
drop_hyphen (c ∷ s) = let rest = drop_hyphen s in if c == b'-' then s else c ∷ rest

-- The test of the check digit in `isValidISSN`.
unfoldable pub checksum_ok : Text → Bool
unfolding weighted eleven_divides drop_hyphen char_value ◌+ℤ◌ ◌*ℤ◌
checksum_ok issn = eleven_divides (weighted 0 (drop_hyphen issn) (num (pos 0)))

abbrev is_check : ℕ → Bool
is_check c = is_digit c || (c == b'x' || c == b'X')

-- `/^\d{4}-\d{3}[\dxX]$/.test(s)`.
unfoldable pub issn_format : Text → Bool
issn_format (a ∷ b ∷ c ∷ d ∷ h ∷ e ∷ f ∷ g ∷ k ∷ []) =
    is_digit a
    && (is_digit b
        && (is_digit c
            && (is_digit d
                && (h == b'-' && (is_digit e && (is_digit f && (is_digit g && is_check k)))))))
issn_format _ = false
