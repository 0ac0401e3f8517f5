-- ===== src/Base/Strings.antt =====
-- Texts that the program walks: lists of UTF-16 code units, and what the scripts use of JavaScript's
-- strings (equality, order and `split`).
pub mod Laws
pub mod Literals
pub mod Split
use Prim.Native.Char.{code}
use Prim.Native.String.{String}
use Prim.Native.Nat.{ℕ, zero, suc, pred}
use mathlib.Core.Bool.{Bool, true, false, ◌&&◌, ◌||◌}
use mathlib.Core.List.{List, [], ◌∷◌, ◌++◌}
use cidemis.Base.Tests.{ltb, ◌==◌, if◌then◌else◌}
use cidemis.Base.Lists.{length}

abbrev pub Text : Type 0
Text = List ℕ

-- The code units of a literal (of any text in the basic multilingual plane).
unfoldable pub codes : String → Text
codes String.[] = []
codes (String.◌∷◌ c s) = code c ∷ codes s

-- `a === b`.
unfoldable pub same : Text → Text → Bool
same [] [] = true
same [] (_ ∷ _) = false
same (_ ∷ _) [] = false
same (a ∷ s) (b ∷ t) = a == b && same s t

-- `a < b`: JavaScript compares texts by their code units.
unfoldable pub less : Text → Text → Bool
less [] [] = false
less [] (_ ∷ _) = true
less (_ ∷ _) [] = false
less (a ∷ s) (b ∷ t) = ltb a b || a == b && less s t

unfoldable pub starts_with : Text → Text → Bool
starts_with [] s = true
starts_with (p ∷ ps) [] = false
starts_with (p ∷ ps) (c ∷ s) = p == c && starts_with ps s

-- The loop of `s.split(sep)` for a separator that is not empty. `skip` counts the units of a
-- separator that are still to be passed over, `cur` is the part that is being read.
unfoldable pub split_from : Text → ℕ → Text → Text → List Text
split_from sep skip cur [] = cur ∷ []
split_from sep (suc skip) cur (c ∷ s) = split_from sep skip cur s
split_from sep zero cur (c ∷ s) =
    let part = cur ∷ split_from sep (pred (length sep)) [] s in
    let more = split_from sep zero (cur ++ c ∷ []) s in
    if starts_with sep (c ∷ s) then part else more

unfoldable pub split : Text → Text → List Text
unfolding split_from starts_with
split sep s = split_from sep 0 [] s
