-- ===== src/Sorting/Keys.antt =====
-- The comparators by key are strict total orders, and no comparators in JavaScript's sense.
use cidemis.Base.{zero, suc, ◌≡◌, ◌≢◌, ◌⊎◌, Bool, true, false, Text, less, arith}
use cidemis.Base.Int.{ℤ, pos, negsuc}
use cidemis.Base.Strings.Laws.{
  same_comm, same_refl, same→eq, less_irrefl, less_trans, less_asymm, less_connex,
}
use cidemis.Sorting.{
  by_key_asc, by_key_desc, titre_asc, titre_desc, title_key, zero_for_x, publication_date_asc,
  publication_date_desc,
}

module _ (key : Text → Text) where
  -- The descending comparator is the ascending one with its arguments exchanged.
  by_key_desc-asc : (a b : Text) → by_key_desc key a b ≡ by_key_asc key b a
  unfolding by_key_desc by_key_asc
  by_key_desc-asc a b = rw (same_comm (key a) (key b))

  by_key_asc_irrefl : (a : Text) → by_key_asc key a a ≡ false
  unfolding by_key_asc
  by_key_asc_irrefl a = rw (same_refl (key a), less_irrefl a)

  -- Of two different texts exactly one is put behind the other.
  by_key_asc_connex :
      (a b : Text)
      → a ≢ b
      → ((by_key_asc key a b ≡ true) × (by_key_asc key b a ≡ false))
        ⊎ ((by_key_asc key a b ≡ false) × (by_key_asc key b a ≡ true))
  unfolding by_key_asc
  by_key_asc_connex a b ne = ground (
    arith,
    same_comm (key a) (key b),
    same→eq (key a) (key b),
    less_asymm a b,
    less_asymm b a,
    less_connex a b,
    less_connex (key a) (key b),
    less_asymm (key a) (key b),
    less_asymm (key b) (key a),
    same_refl (key a),
  )

  by_key_asc_trans :
      (a b c : Text)
      → by_key_asc key a b ≡ true
      → by_key_asc key b c ≡ true
      → by_key_asc key a c ≡ true
  unfolding by_key_asc
  by_key_asc_trans a b c h k = ground (
    arith,
    same→eq (key a) (key b),
    same→eq (key b) (key c),
    same→eq (key a) (key c),
    same_refl (key a),
    less_trans a b c,
    less_trans (key c) (key b) (key a),
    less_irrefl (key a),
  )

-- What JavaScript's sort makes of a Boolean: true is 1, false is 0.
abbrev pub as_number : Bool → ℤ
as_number true = pos 1
as_number false = pos 0

abbrev pub negate : ℤ → ℤ
negate (pos zero) = pos 0
negate (pos (suc n)) = negsuc n
negate (negsuc n) = pos (suc n)

-- On no two different texts are the ascending title comparator's answers to (a, b) and (b, a),
-- read as numbers, opposite, as a comparator's must be.
pub titre_asc-ne-negate :
    (lower : Text → Text) (a b : Text)
    → a ≢ b
    → as_number (titre_asc lower b a) ≢ negate (as_number (titre_asc lower a b))
unfolding titre_asc
titre_asc-ne-negate lower a b ne e = ground (arith, by_key_asc_connex (title_key lower) a b ne)

-- Titles in ascending order: a strict total order, of which the descending one is the reverse.
pub record IsStrictOrder (r : Text → Text → Bool) : Type 0 where
  irrefl : (a : Text) → r a a ≡ false
  trans : (a b c : Text) → r a b ≡ true → r b c ≡ true → r a c ≡ true
  connex :
      (a b : Text) → a ≢ b → ((r a b ≡ true) × (r b a ≡ false)) ⊎ ((r a b ≡ false) × (r b a ≡ true))

by_key_asc-IsStrictOrder : (key : Text → Text) → IsStrictOrder (by_key_asc key)
by_key_asc-IsStrictOrder key = record {
  irrefl = by_key_asc_irrefl key;
  trans = by_key_asc_trans key;
  connex = by_key_asc_connex key;
}

-- For any `toLowerCase`, the ascending title comparator's answer true is a strict total order on
-- texts, and the descending comparator is the same order with its arguments exchanged.
pub titre_asc-IsStrictOrder :
    (lower : Text → Text)
    → IsStrictOrder (titre_asc lower) × ((a b : Text) → titre_desc lower a b ≡ titre_asc lower b a)
unfolding titre_asc titre_desc
titre_asc-IsStrictOrder lower =
    (by_key_asc-IsStrictOrder (title_key lower), by_key_desc-asc (title_key lower))

-- So for publication dates, where X stands for a digit that is not known.
publication_date_asc-IsStrictOrder :
    IsStrictOrder publication_date_asc
    × ((a b : Text) → publication_date_desc a b ≡ publication_date_asc b a)
unfolding publication_date_asc publication_date_desc
publication_date_asc-IsStrictOrder =
    (by_key_asc-IsStrictOrder zero_for_x, by_key_desc-asc zero_for_x)

-- Where two dates only differ in X and 0, the text with the X is put first.
pub publication_date_asc-x :
    (a b : Text) → zero_for_x a ≡ zero_for_x b → publication_date_asc a b ≡ less a b
unfolding publication_date_asc by_key_asc
publication_date_asc-x a b e = rw (e, same_refl (zero_for_x b))
