-- ===== src/Issn/Tests.antt =====
-- The check digit at concrete numbers.
use cidemis.Base.{◌↔◌, ◌≡◌, refl, true, false, [], ◌∷◌, codes, arith, ◌++◌, Text, All}
use cidemis.Issn.{checksum_ok, issn_format}
use cidemis.Issn.Sum.{IsIssnChar}
use cidemis.Issn.Digits.{checksum_ok-replace, checksum_ok_small_x}
use cidemis.Issn.Format.{IsIssn, format-checksum-IsIssn_iff}

good : checksum_ok (codes "0317-8471") ≡ true
unfolding checksum_ok codes
good = refl

good_x : checksum_ok (codes "2434-561X") ≡ true
unfolding checksum_ok codes
good_x = refl

bad : checksum_ok (codes "0317-8472") ≡ false
unfolding checksum_ok codes
bad = refl

small : checksum_ok (codes "2434-561x") ≡ false
unfolding checksum_ok codes
small = refl

form : issn_format (codes "2434-561x") ≡ true
unfolding issn_format codes
form = refl

format-checksum-IsIssn_iff_example :
    ((issn_format (codes "0317-8471") ≡ true) × (checksum_ok (codes "0317-8471") ≡ true))
    ↔ IsIssn (codes "0317-8471")
format-checksum-IsIssn_iff_example = format-checksum-IsIssn_iff (codes "0317-8471")

-- 03178471, and with its third digit and its last two digits changed
abbrev left : Text
left = b'0' ∷ b'3' ∷ []

abbrev right : Text
right = b'7' ∷ b'8' ∷ b'4' ∷ b'7' ∷ b'1' ∷ []

eight_good : checksum_ok (left ++ b'1' ∷ right) ≡ true
unfolding checksum_ok
eight_good = refl

eight_chars : All IsIssnChar (left ++ b'1' ∷ right)
eight_chars = ground arith

eight_changed : All IsIssnChar (left ++ b'2' ∷ right)
eight_changed = ground arith

eight_exchanged : All IsIssnChar (left ++ b'7' ∷ (b'1' ∷ b'8' ∷ b'4' ∷ b'7' ∷ b'1' ∷ []))
eight_exchanged = ground arith

checksum_ok-replace_example : checksum_ok (left ++ b'2' ∷ right) ≡ false
checksum_ok-replace_example =
    checksum_ok-replace left right b'1' b'2' eight_chars eight_changed refl (omega arith) eight_good

seven_chars : All IsIssnChar (left ++ b'1' ∷ b'7' ∷ b'8' ∷ b'4' ∷ b'7' ∷ [])
seven_chars = ground arith

checksum_ok_small_x_example : checksum_ok (codes "2434-561" ++ b'x' ∷ []) ≡ false
checksum_ok_small_x_example = checksum_ok_small_x (codes "2434-561")
