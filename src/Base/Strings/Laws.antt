-- ===== src/Base/Strings/Laws.antt =====
-- Laws of the tests on texts: equality is decided, and the order is a strict total order.
use mathlib.Core.Path.{◌≡◌, refl}
use mathlib.Core.Bool.{true, false}
use mathlib.Core.List.{[], ◌∷◌, ◌++◌}
use native.Mathlib.Omega.{arith}
use cidemis.Base.Strings.{Text, same, less, starts_with}

pub same_refl : (s : Text) → same s s ≡ true
unfolding same
same_refl [] = refl
same_refl (a ∷ s) = ground (arith, same_refl s)

pub same→eq : (s t : Text) → same s t ≡ true → s ≡ t
unfolding same
same→eq [] [] h = refl
same→eq [] (b ∷ t) h = cc
same→eq (a ∷ s) [] h = cc
same→eq (a ∷ s) (b ∷ t) h = ground (arith, same→eq s t)

pub same_comm : (s t : Text) → same s t ≡ same t s
same_comm s t = ground (arith, same→eq s t, same→eq t s, same_refl s, same_refl t)

pub less_irrefl : (s : Text) → less s s ≡ false
unfolding less
less_irrefl [] = refl
less_irrefl (a ∷ s) = ground (arith, less_irrefl s)

pub less_trans : (s t u : Text) → less s t ≡ true → less t u ≡ true → less s u ≡ true
unfolding less
less_trans [] [] u h k = cc
less_trans [] (b ∷ t) [] h k = cc
less_trans [] (b ∷ t) (c ∷ u) h k = refl
less_trans (a ∷ s) [] u h k = cc
less_trans (a ∷ s) (b ∷ t) [] h k = cc
less_trans (a ∷ s) (b ∷ t) (c ∷ u) h k = ground (arith, less_trans s t u)

pub less_asymm : (s t : Text) → less s t ≡ true → less t s ≡ false
unfolding less
less_asymm [] [] h = cc
less_asymm [] (b ∷ t) h = refl
less_asymm (a ∷ s) [] h = cc
less_asymm (a ∷ s) (b ∷ t) h = ground (arith, less_asymm s t)

-- Texts of which neither is below the other are equal.
pub less_connex : (s t : Text) → less s t ≡ false → less t s ≡ false → s ≡ t
unfolding less
less_connex [] [] h k = refl
less_connex [] (b ∷ t) h k = cc
less_connex (a ∷ s) [] h k = cc
less_connex (a ∷ s) (b ∷ t) h k = ground (arith, less_connex s t)

pub starts_with-append : (p s : Text) → starts_with p (p ++ s) ≡ true
unfolding starts_with
starts_with-append [] s = refl
starts_with-append (a ∷ p) s = ground (arith, starts_with-append p s)
