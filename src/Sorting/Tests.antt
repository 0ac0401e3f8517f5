-- ===== src/Sorting/Tests.antt =====
-- The comparators at concrete texts.
use cidemis.Base.{
  ◌≡◌, ◌≢◌, refl, true, false, [], ◌∷◌, Text, codes, same, less, split, if◌then◌else◌, arith,
}
use cidemis.Base.Int.{pos, negsuc}
use cidemis.Sorting.{titre_asc, titre_desc, publication_date_asc, get_date, french_date_asc}
use cidemis.Sorting.Keys.{
  IsStrictOrder, as_number, negate, titre_asc-IsStrictOrder, titre_asc-ne-negate,
}
use cidemis.Sorting.Dates.{Date, printed, earlier, french_date_asc-earlier}

abbrev keep : Text → Text
keep a = a

-- "École" stands between "Eau" and "Est".
school : titre_asc keep (codes "École") (codes "Eau") ≡ true
unfolding titre_asc codes same less
school = refl

unknown_year : publication_date_asc (codes "18XX") (codes "1800") ≡ false
unfolding publication_date_asc codes same less
unknown_year = refl

turned : get_date (codes "31-12-1999") ≡ codes "19991231"
unfolding get_date split codes
turned = refl

no_date : get_date (codes "soon") ≡ codes "NaNsoon"
unfolding get_date split codes
no_date = refl

a_ne_b : ◌≢◌ {A = Text} (b'a' ∷ []) (b'b' ∷ [])
a_ne_b = ground arith

titre_asc-ne-negate_example :
    as_number (titre_asc keep (b'b' ∷ []) (b'a' ∷ []))
    ≢ negate (as_number (titre_asc keep (b'a' ∷ []) (b'b' ∷ [])))
titre_asc-ne-negate_example = titre_asc-ne-negate keep (b'a' ∷ []) (b'b' ∷ []) a_ne_b

titre_asc-IsStrictOrder_example :
    IsStrictOrder (titre_asc keep) × ((a b : Text) → titre_desc keep a b ≡ titre_asc keep b a)
titre_asc-IsStrictOrder_example = titre_asc-IsStrictOrder keep

abbrev new_year : Date
new_year = record {
  day = b'0' ∷ b'1' ∷ [];
  month = b'0' ∷ b'1' ∷ [];
  year = b'2' ∷ b'0' ∷ b'2' ∷ b'0' ∷ [];
  day_two = refl;
  month_two = refl;
  year_four = refl;
  day_plain = omega arith;
  month_plain = omega arith;
  year_plain = omega arith;
}

french_date_asc-earlier_example : french_date_asc (printed new_year) (printed new_year) ≡ (
    if earlier new_year new_year
    then negsuc 0
    else if earlier new_year new_year
    then pos 1
    else pos 0)
french_date_asc-earlier_example = french_date_asc-earlier new_year new_year
