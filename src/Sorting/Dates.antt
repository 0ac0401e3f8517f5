-- ===== src/Sorting/Dates.antt =====
-- French dates, dd-mm-yyyy, are compared by year, month and day.
use cidemis.Base.{
  ℕ, ◌≡◌, refl, sym, ap, ap₂, ◌∙◌, Bool, ◌&&◌, ◌||◌, [], ◌∷◌, ◌++◌, Text, same, less, split,
  split_from, length, if◌then◌else◌, arith,
}
use cidemis.Base.Strings.Split.{Lacks, split_from-append, split_from_sep, split_from-end}
use cidemis.Base.Int.{pos, negsuc}
use cidemis.Base.Strings.Laws.{less_asymm}
use cidemis.Sorting.{get_date, join_date, french_date_asc, french_date_desc}
use cidemis.Sorting.Keys.{negate}

split_three :
    (c : ℕ) (d m y : Text)
    → Lacks c d
    → Lacks c m
    → Lacks c y
    → split_from (c ∷ []) 0 [] (d ++ c ∷ (m ++ c ∷ y)) ≡ d ∷ m ∷ y ∷ []
split_three c d m y hd hm hy =
    split_from-append c [] d (c ∷ (m ++ c ∷ y)) [] hd
    ∙ split_from_sep c (m ++ c ∷ y) d
    ∙ ap (◌∷◌ d) (split_from-append c [] m (c ∷ y) [] hm ∙ split_from_sep c y m)
    ∙ ap (λ r. d ∷ m ∷ r) (split_from-end c [] y [] hy)

-- A date whose three parts hold no hyphen is turned round.
get_date-parts :
    (d m y : Text)
    → Lacks b'-' d
    → Lacks b'-' m
    → Lacks b'-' y
    → get_date (d ++ b'-' ∷ (m ++ b'-' ∷ y)) ≡ y ++ (m ++ d)
unfolding get_date split
get_date-parts d m y hd hm hy = ap join_date (split_three b'-' d m y hd hm hy)

-- Parts of equal length are compared one after the other.
less-append :
    (s s' t t' : Text)
    → length s ≡ length s'
    → less (s ++ t) (s' ++ t') ≡ (less s s' || (same s s' && less t t'))
unfolding less same
less-append [] [] t t' e = refl
less-append [] (b ∷ s') t t' e = absurd (omega arith)
less-append (a ∷ s) [] t t' e = absurd (omega arith)
less-append (a ∷ s) (b ∷ s') t t' e = ground (arith, less-append s s' t t')

-- A date in the table: two units of day, two of month, four of year, without hyphens.
pub record Date : Type 0 where
  pub day : Text
  pub month : Text
  pub year : Text
  pub day_two : length day ≡ 2
  pub month_two : length month ≡ 2
  pub year_four : length year ≡ 4
  pub day_plain : Lacks b'-' day
  pub month_plain : Lacks b'-' month
  pub year_plain : Lacks b'-' year

abbrev pub printed : Date → Text
printed d = d.day ++ b'-' ∷ (d.month ++ b'-' ∷ d.year)

-- An earlier year, or the same year and an earlier month, or the same month and an earlier day.
abbrev pub earlier : Date → Date → Bool
earlier d e =
    less d.year e.year
    || same d.year e.year && (less d.month e.month || same d.month e.month && less d.day e.day)

less-get_date : (d e : Date) → less (get_date (printed d)) (get_date (printed e)) ≡ earlier d e
less-get_date d e =
    ap₂ less (get_date-parts d.day d.month d.year d.day_plain d.month_plain d.year_plain)
      (get_date-parts e.day e.month e.year e.day_plain e.month_plain e.year_plain)
    ∙ less-append d.year e.year (d.month ++ d.day) (e.month ++ e.day)
        (d.year_four ∙ sym e.year_four)
    ∙ ap (λ b. less d.year e.year || same d.year e.year && b)
        (less-append d.month e.month d.day e.day (d.month_two ∙ sym e.month_two))

-- On dates dd-mm-yyyy the ascending comparator answers -1, 1 or 0 as the first date is earlier by
-- year, month and day, later, or neither.
pub french_date_asc-earlier :
    (d e : Date)
    → french_date_asc (printed d) (printed e)
      ≡ (if earlier d e then negsuc 0 else if earlier e d then pos 1 else pos 0)
unfolding french_date_asc
french_date_asc-earlier d e =
    ap₂ (λ (x : Bool) (y : Bool). if x then negsuc 0 else if y then pos 1 else pos 0)
      (less-get_date d e) (less-get_date e d)

-- On all texts the ascending date comparator gives exchanged arguments the opposite answer, and
-- the descending one is the ascending one with its arguments exchanged.
pub french_date_asc-negate :
    (a b : Text)
    → (french_date_asc b a ≡ negate (french_date_asc a b))
      × (french_date_desc a b ≡ french_date_asc b a)
unfolding french_date_asc french_date_desc
french_date_asc-negate a b =
    ground (arith, less_asymm (get_date a) (get_date b), less_asymm (get_date b) (get_date a))
