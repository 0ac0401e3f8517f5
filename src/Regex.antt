-- ===== src/Regex.antt =====
-- The regular expressions of the scripts, without anchors and captures, and whether a text has a part
-- that such an expression describes, which is what JavaScript's `test` answers.
pub mod Language
pub mod Shapes
use cidemis.Base.{
  ℕ, Bool, true, false, ◌&&◌, ◌||◌, List, [], ◌∷◌, ◌++◌, Text, leb, ◌==◌, if◌then◌else◌,
}

pub data Regex : Type 0 where
  fail empty : Regex
  -- one code unit of a class
  unit : (ℕ → Bool) → Regex
  seq alt : Regex → Regex → Regex
  star : Regex → Regex

-- `r+`, `(?:r)?` and a code unit.
abbrev pub plus : Regex → Regex
plus r = seq r (star r)

abbrev pub opt : Regex → Regex
opt r = alt r empty

abbrev pub lit : ℕ → Regex
lit c = unit (λ d. d == c)

unfoldable pub nullable : Regex → Bool
nullable fail = false
nullable empty = true
nullable (unit p) = false
nullable (seq r s) = nullable r && nullable s
nullable (alt r s) = nullable r || nullable s
nullable (star r) = true

-- What is left to find after the code unit c.
unfoldable pub deriv : ℕ → Regex → Regex
unfolding nullable
deriv c fail = fail
deriv c empty = fail
deriv c (unit p) = if p c then empty else fail
deriv c (seq r s) = alt (seq (deriv c r) s) (if nullable r then deriv c s else fail)
deriv c (alt r s) = alt (deriv c r) (deriv c s)
deriv c (star r) = seq (deriv c r) (star r)

-- The whole text is described, as by `/^r$/`.
unfoldable pub accepts : Regex → Text → Bool
unfolding deriv
accepts r [] = nullable r
accepts r (c ∷ t) = accepts (deriv c r) t

-- A text that the text starts with is described.
unfoldable pub accepts_start : Regex → Text → Bool
unfolding deriv
accepts_start r [] = nullable r
accepts_start r (c ∷ t) = nullable r || accepts_start (deriv c r) t

-- `/r/.test(text)`
unfoldable pub finds : Regex → Text → Bool
unfolding accepts_start
finds r [] = accepts_start r []
finds r (c ∷ t) = accepts_start r (c ∷ t) || finds r t
