-- ===== src/Sorting.antt =====
-- The comparators of the table of requests: `getDate` and the functions that are put into
-- `dataTableExt.oSort` in web/src/main/webapp/view/static/js/datatables.js.
pub mod Keys
pub mod Dates
mod Tests
use cidemis.Base.{
  ℕ, zero, suc, Bool, true, false, List, [], ◌∷◌, ◌++◌, map, Text, codes, same, less, split, ◌==◌,
  if◌then◌else◌,
}
use cidemis.Base.Int.{ℤ, pos, negsuc}
use cidemis.Diacritics.{remove_diacritics}

-- The comparators of titles, tags and publication dates return a Boolean. They compare by a key,
-- and by the texts themselves where the keys are equal.
unfoldable pub by_key_asc : (Text → Text) → Text → Text → Bool
by_key_asc key a b = let x = key a in let y = key b in if same x y then less a b else less y x

unfoldable pub by_key_desc : (Text → Text) → Text → Text → Bool
by_key_desc key a b = let x = key a in let y = key b in if same x y then less b a else less x y

-- `lower` is the language's `toLowerCase`, which needs tables of its own: the theorems hold for any
-- function in its place.
module _ (lower : Text → Text) where
  abbrev title_key : Text → Text
  title_key a = remove_diacritics (lower a)

  unfoldable pub titre_asc : Text → Text → Bool
  unfolding by_key_asc remove_diacritics
  titre_asc = by_key_asc title_key

  unfoldable pub titre_desc : Text → Text → Bool
  unfolding by_key_desc remove_diacritics
  titre_desc = by_key_desc title_key

  unfoldable pub taggue_asc : Text → Text → Bool
  unfolding by_key_asc remove_diacritics
  taggue_asc = by_key_asc title_key

  unfoldable pub taggue_desc : Text → Text → Bool
  unfolding by_key_desc remove_diacritics
  taggue_desc = by_key_desc title_key

-- `a.replace(/X/g, '0')`
unfoldable pub zero_for_x : Text → Text
zero_for_x = map (λ c. if c == b'X' then b'0' else c)

unfoldable pub publication_date_asc : Text → Text → Bool
unfolding by_key_asc zero_for_x
publication_date_asc = by_key_asc zero_for_x

unfoldable pub publication_date_desc : Text → Text → Bool
unfolding by_key_desc zero_for_x
publication_date_desc = by_key_desc zero_for_x

-- `time[2] + time[1] + time[0]`: a part that is missing is `undefined`, and the sum of two of these
-- is NaN.
abbrev pub join_date : List Text → Text
join_date [] = codes "NaN"
join_date (t0 ∷ []) = codes "NaN" ++ t0
join_date (t0 ∷ t1 ∷ []) = codes "undefined" ++ (t1 ++ t0)
join_date (t0 ∷ t1 ∷ t2 ∷ _) = t2 ++ (t1 ++ t0)

unfoldable pub get_date : Text → Text
get_date a = join_date (split (b'-' ∷ []) a)

unfoldable pub french_date_asc : Text → Text → ℤ
french_date_asc a b =
    let x = get_date a in
    let y = get_date b in if less x y then negsuc 0 else if less y x then pos 1 else pos 0

unfoldable pub french_date_desc : Text → Text → ℤ
french_date_desc a b =
    let x = get_date a in
    let y = get_date b in if less x y then pos 1 else if less y x then negsuc 0 else pos 0
