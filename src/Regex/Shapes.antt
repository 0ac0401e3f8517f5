-- ===== src/Regex/Shapes.antt =====
-- What the matches of an expression consist of, and what they start and end with.
use mathlib.Core.Path.{subst}
use cidemis.Base.{
  ℕ, ◌≡◌, refl, sym, ap, ◌∙◌, ◌⊎◌, inl, inr, Bool, true, ◌==◌, ==_iff, ◌++◌, [], ◌∷◌, append_assoc,
  append-nil, Text, All,
}
use cidemis.Regex.{Regex, seq, unit, star, opt, lit, plus}
use cidemis.Regex.Language.{Matches, nothing, one, both, left, right, stop, again}

-- What the match of an expression consists of.
pub unit_inv :
    (p : ℕ → Bool) (t : Text) → Matches (unit p) t → (c : ℕ) × (t ≡ c ∷ []) × (p c ≡ true)
unit_inv p [] m = elim m [ ]
unit_inv p (c ∷ []) (one h) = (c, refl, h)
unit_inv p (c ∷ (d ∷ t)) m = elim m [ ]

abbrev Both : Regex → Regex → Text → Type 0
Both r s t = (u : Text) × (v : Text) × (t ≡ u ++ v) × Matches r u × Matches s v

pub seq_inv : (r s : Regex) (t : Text) → Matches (seq r s) t → Both r s t
seq_inv r s t (both u v e a b) = (u, v, e, a, b)

pub opt_inv : (r : Regex) (t : Text) → Matches (opt r) t → Matches r t ⊎ (t ≡ [])
opt_inv r t (left m) = inl m
opt_inv r [] (right nothing) = inr refl
opt_inv r (c ∷ t) (right m) = elim m [ ]

-- The text ends with a unit of the class, or starts with one.
abbrev pub EndsIn : (ℕ → Bool) → Text → Type 0
EndsIn p t = (q : Text) × (c : ℕ) × (t ≡ q ++ c ∷ []) × (p c ≡ true)

abbrev pub StartsIn : (ℕ → Bool) → Text → Type 0
StartsIn p t = (c : ℕ) × (q : Text) × (t ≡ c ∷ q) × (p c ≡ true)

pub append-EndsIn : (p : ℕ → Bool) (u v : Text) → EndsIn p v → EndsIn p (u ++ v)
append-EndsIn p u v (q, c, e, h) =
    (u ++ q, c, ap (λ x. u ++ x) e ∙ sym (append_assoc u q (c ∷ [])), h)

pub append-StartsIn : (p : ℕ → Bool) (u v : Text) → StartsIn p u → StartsIn p (u ++ v)
append-StartsIn p u v (c, q, e, h) = (c, q ++ v, ap (λ x. x ++ v) e, h)

abbrev pub AllIn : (ℕ → Bool) → Text → Type 0
AllIn p = All (λ c. p c ≡ true)

pub star-AllIn : (p : ℕ → Bool) (t : Text) → Matches (star (unit p)) t → AllIn p t
star-AllIn p [] stop = tt
star-AllIn p t (again c u v e a b) =
    let (d, e', h) = unit_inv p (c ∷ u) a in
    subst (AllIn p) (sym (e ∙ ap (λ x. x ++ v) e')) (h, star-AllIn p v b)

pub AllIn-star : (p : ℕ → Bool) (t : Text) → AllIn p t → Matches (star (unit p)) t
AllIn-star p [] hs = stop
AllIn-star p (c ∷ t) (h, hs) = again c [] t refl (one h) (AllIn-star p t hs)

pub AllIn-left : (p : ℕ → Bool) (u v : Text) → AllIn p (u ++ v) → AllIn p u
AllIn-left p [] v hs = tt
AllIn-left p (c ∷ u) v (h, hs) = (h, AllIn-left p u v hs)

-- A repetition of what ends, or starts, with a unit of the class.
pub star-EndsIn :
    (p : ℕ → Bool) (r : Regex)
    → ((u : Text) → Matches r u → EndsIn p u)
    → (t : Text) → Matches (star r) t
    → (t ≡ []) ⊎ EndsIn p t
star-EndsIn p r f [] stop = inl refl
star-EndsIn p r f t (again c u v e a b) = elim (star-EndsIn p r f v b) [
  | inl z ↦
      inr (subst (EndsIn p) (sym (e ∙ ap (λ x. c ∷ (u ++ x)) z ∙ append-nil (c ∷ u))) (f (c ∷ u) a))
  | inr w ↦ inr (subst (EndsIn p) (sym e) (append-EndsIn p (c ∷ u) v w))
]

pub star-StartsIn :
    (p : ℕ → Bool) (r : Regex)
    → ((u : Text) → Matches r u → StartsIn p u)
    → (t : Text) → Matches (star r) t
    → (t ≡ []) ⊎ StartsIn p t
star-StartsIn p r f [] stop = inl refl
star-StartsIn p r f t (again c u v e a b) =
    inr (subst (StartsIn p) (sym e) (append-StartsIn p (c ∷ u) v (f (c ∷ u) a)))

pub seq_star-EndsIn :
    (p : ℕ → Bool) (r s : Regex)
    → ((u : Text) → Matches r u → EndsIn p u)
    → ((u : Text) → Matches s u → EndsIn p u)
    → (t : Text) → Matches (seq r (star s)) t
    → EndsIn p t
seq_star-EndsIn p r s f g t m =
    let (u, v, e, a, b) = seq_inv r (star s) t m in
    elim (star-EndsIn p s g v b) [
      | inl z ↦ subst (EndsIn p) (sym (e ∙ ap (λ x. u ++ x) z ∙ append-nil u)) (f u a)
      | inr w ↦ subst (EndsIn p) (sym e) (append-EndsIn p u v w)
    ]

unit-EndsIn : (p : ℕ → Bool) (t : Text) → Matches (unit p) t → EndsIn p t
unit-EndsIn p t m = let (c, e, h) = unit_inv p t m in ([], c, e, h)

pub plus-EndsIn : (p : ℕ → Bool) (t : Text) → Matches (plus (unit p)) t → EndsIn p t
plus-EndsIn p = seq_star-EndsIn p (unit p) (unit p) (unit-EndsIn p) (unit-EndsIn p)

pub lit_inv : (c : ℕ) (t : Text) → Matches (lit c) t → t ≡ c ∷ []
lit_inv c t m =
    let (d, e, h) = unit_inv (λ x. x == c) t m in e ∙ ap (λ x. x ∷ []) ((==_iff d c).0 h)
