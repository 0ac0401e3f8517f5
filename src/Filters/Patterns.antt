-- ===== src/Filters/Patterns.antt =====
-- The search of a column.
use cidemis.Base.{
  ℕ, suc, ◌+◌, ◌-◌, String, ◌≡◌, refl, ap, true, false, Option, [], ◌∷◌, ◌++◌, Text, ◌==◌,
  if◌then◌else◌, arith, Bool-cases, ◌∙◌, inl, inr,
}
use cidemis.Base.Strings.Split.{Lacks}
use cidemis.Diacritics.{remove_diacritics}
use cidemis.Diacritics.Removal.{remove_diacritics_idem}
use cidemis.Filters.{
  has_percent, replace_percent, ignores_diacritics, search_value, search_pattern, searchtable,
}

-- The number of the signs % in a text.
abbrev percents : Text → ℕ
percents [] = 0
percents (c ∷ s) = let rest = percents s in if c == b'%' then suc rest else rest

percents-append : (s t : Text) → percents (s ++ t) ≡ percents s + percents t
percents-append [] t = ground arith
percents-append (c ∷ s) t = ground (arith, percents-append s t)

percents-replace_percent : (s : Text) → percents (replace_percent s) ≡ percents s - 1
unfolding replace_percent
percents-replace_percent [] = refl
percents-replace_percent (c ∷ s) = ground (arith, percents-replace_percent s)

has_percent-percents : (s : Text) → has_percent s ≡ false → percents s ≡ 0
has_percent-percents [] h = refl
has_percent-percents (c ∷ s) h = ground (arith, has_percent-percents s)

-- The search takes the first % for any text, and the others as they are: the pattern holds one % less
-- than the text, and none if the text holds none.
searchtable-percents :
    (col_name : Option String) (value : Text)
    → percents (searchtable col_name value).pattern ≡ percents (search_value col_name value) - 1
unfolding searchtable search_pattern
searchtable-percents col_name value =
    let v = search_value col_name value in
    elim (Bool-cases (has_percent v)) [
      | inl some_ ↦ rw some_ (
          percents-append (replace_percent v) (b'$' ∷ [])
          ∙ omega (arith, percents-replace_percent v))
      | inr none_ ↦ rw none_ (omega (arith, has_percent-percents v none_))
    ]

replace_percent-append :
    (p s : Text)
    → Lacks b'%' p
    → replace_percent (p ++ b'%' ∷ s) ≡ p ++ (b'(' ∷ (b'.' ∷ (b'*' ∷ (b')' ∷ s))))
unfolding replace_percent
replace_percent-append [] s h = ground arith
replace_percent-append (c ∷ p) s (n, h) = ground (arith, replace_percent-append p s h)

has_percent-append : (p s : Text) → has_percent (p ++ b'%' ∷ s) ≡ true
has_percent-append [] s = ground arith
has_percent-append (c ∷ p) s = ground (arith, has_percent-append p s)

-- A searched text with a % is searched as a regular expression from its start to its end, in
-- which the first % stands for any text and what follows it is as it was.
searchtable-prefix :
    (col_name : Option String) (value p s : Text)
    → search_value col_name value ≡ p ++ b'%' ∷ s
    → Lacks b'%' p
    → ((searchtable col_name value).pattern
        ≡ b'^' ∷ ((p ++ (b'(' ∷ (b'.' ∷ (b'*' ∷ (b')' ∷ s))))) ++ b'$' ∷ []))
      × ((searchtable col_name value).regex ≡ true)
unfolding searchtable search_pattern
searchtable-prefix col_name value p s e h =
    rw (e, has_percent-append p s)
      (ap (λ t. b'^' ∷ (t ++ b'$' ∷ [])) (replace_percent-append p s h), refl)

-- A search of a title or a tag is the same with and without diacritics in what is searched for.
pub searchtable-remove_diacritics :
    (col_name : Option String) (value : Text)
    → ignores_diacritics col_name ≡ true
    → searchtable col_name (remove_diacritics value) ≡ searchtable col_name value
unfolding searchtable search_value
searchtable-remove_diacritics col_name value h = rw (h, remove_diacritics_idem value) refl
