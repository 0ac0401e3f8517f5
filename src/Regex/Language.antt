-- ===== src/Regex/Language.antt =====
-- What the expressions describe, and that the tests decide it.
use mathlib.Core.Path.{subst}
use cidemis.Base.{
  ℕ, ◌≡◌, refl, sym, ap, ◌∙◌, ◌⊎◌, inl, inr, Bool, true, false, ◌||◌, [], ◌∷◌, ◌++◌, Text, and_left,
  and_right, if◌then◌else◌,
}
use cidemis.Regex.{
  Regex, fail, empty, unit, seq, alt, star, nullable, deriv, accepts, accepts_start, finds,
}

pub data Matches : Regex → Text → Type 0 where
  nothing : Matches empty []
  one : {p : ℕ → Bool} {c : ℕ} → p c ≡ true → Matches (unit p) (c ∷ [])
  both :
      {r s : Regex} {t : Text} (u v : Text)
      → t ≡ u ++ v
      → Matches r u
      → Matches s v
      → Matches (seq r s) t
  left : {r s : Regex} {t : Text} → Matches r t → Matches (alt r s) t
  right : {r s : Regex} {t : Text} → Matches s t → Matches (alt r s) t
  stop : {r : Regex} → Matches (star r) []
  again :
      {r : Regex} {t : Text} (c : ℕ) (u v : Text)
      → t ≡ c ∷ (u ++ v)
      → Matches r (c ∷ u)
      → Matches (star r) v
      → Matches (star r) t

or_cases : (a b : Bool) → (a || b) ≡ true → (a ≡ true) ⊎ (b ≡ true)
or_cases true b h = inl refl
or_cases false b h = inr h

or_right : (a : Bool) → (a || true) ≡ true
or_right true = refl
or_right false = refl

Matches-nullable : (r : Regex) → nullable r ≡ true → Matches r []
unfolding nullable
Matches-nullable fail h = cc
Matches-nullable empty h = nothing
Matches-nullable (unit p) h = cc
Matches-nullable (seq r s) h =
    both [] [] refl (Matches-nullable r (and_left _ _ h)) (Matches-nullable s (and_right _ _ h))
Matches-nullable (alt r s) h = elim (or_cases (nullable r) (nullable s) h) [
  | inl a ↦ left (Matches-nullable r a)
  | inr b ↦ right (Matches-nullable s b)
]
Matches-nullable (star r) h = stop

cons-not-nil : {c : ℕ} {t : Text} → [] ≡ c ∷ t → ⊥
cons-not-nil e = cc

nullable-Matches : (r : Regex) (t : Text) → [] ≡ t → Matches r t → nullable r ≡ true
unfolding nullable
nullable-Matches fail t e m = elim m [ ]
nullable-Matches empty [] e nothing = refl
nullable-Matches empty (_ ∷ _) e m = elim m [ ]
nullable-Matches (unit p) t e (one h) = absurd (cons-not-nil e)
nullable-Matches (seq r s) t e (both [] v q a b) =
    rw (nullable-Matches r [] refl a) (nullable-Matches s v (e ∙ q) b)
nullable-Matches (seq r s) t e (both (c ∷ u) v q a b) = absurd (cons-not-nil (e ∙ q))
nullable-Matches (alt r s) t e (left a) = rw (nullable-Matches r t e a) refl
nullable-Matches (alt r s) t e (right b) = rw (nullable-Matches s t e b) (or_right _)
nullable-Matches (star r) t e m = refl

-- An expression that is there under a condition.
Matches-if :
    (b : Bool) (r : Regex) (t : Text) → Matches (if b then r else fail) t → (b ≡ true) × Matches r t
Matches-if true r t m = (refl, m)
Matches-if false r t m = elim m [ ]

unit_step :
    (p : ℕ → Bool) (c : ℕ) (t : Text) → (p c ≡ true) × Matches empty t → Matches (unit p) (c ∷ t)
unit_step p c [] (h, nothing) = one h
unit_step p c (d ∷ t) (h, m) = elim m [ ]

Matches-deriv : (c : ℕ) (r : Regex) (t : Text) → Matches (deriv c r) t → Matches r (c ∷ t)
unfolding deriv
Matches-deriv c fail t m = elim m [ ]
Matches-deriv c empty t m = elim m [ ]
Matches-deriv c (unit p) t m = unit_step p c t (Matches-if (p c) empty t m)
Matches-deriv c (seq r s) t (left (both u v e a b)) =
    both (c ∷ u) v (ap (λ x. c ∷ x) e) (Matches-deriv c r u a) b
Matches-deriv c (seq r s) t (right m) =
    let (n, m') = Matches-if (nullable r) (deriv c s) t m in
    both [] (c ∷ t) refl (Matches-nullable r n) (Matches-deriv c s t m')
Matches-deriv c (alt r s) t (left a) = left (Matches-deriv c r t a)
Matches-deriv c (alt r s) t (right b) = right (Matches-deriv c s t b)
Matches-deriv c (star r) t (both u v e a b) =
    again c u v (ap (λ x. c ∷ x) e) (Matches-deriv c r u a) b

if-Matches :
    (b : Bool) (r : Regex) (t : Text) → b ≡ true → Matches r t → Matches (if b then r else fail) t
if-Matches true r t h m = m
if-Matches false r t h m = cc

cons_head : {c d : ℕ} {t u : Text} → c ∷ t ≡ d ∷ u → d ≡ c
cons_head e = cc

cons_tail : {c d : ℕ} {t u : Text} → c ∷ t ≡ d ∷ u → t ≡ u
cons_tail e = cc

deriv-Matches : (c : ℕ) (r : Regex) (t w : Text) → w ≡ c ∷ t → Matches r w → Matches (deriv c r) t
unfolding deriv
deriv-Matches c fail t w e m = elim m [ ]
deriv-Matches c empty t [] e nothing = absurd (cons-not-nil e)
deriv-Matches c empty t (_ ∷ _) e m = elim m [ ]
deriv-Matches c (unit p) t [] e m = elim m [ ]
deriv-Matches c (unit p) t (d ∷ (_ ∷ _)) e m = elim m [ ]
deriv-Matches c (unit p) t (d ∷ []) e (one h) =
    if-Matches (p c) empty t (ap p (sym (cons_head (sym e))) ∙ h)
      (subst (Matches empty) (cons_tail e) nothing)
deriv-Matches c (seq r s) t w e (both [] v q a b) = right (
    if-Matches (nullable r) (deriv c s) t (nullable-Matches r [] refl a)
      (deriv-Matches c s t v (sym q ∙ e) b))
deriv-Matches c (seq r s) t w e (both (d ∷ u) v q a b) = left (
    both u v (cons_tail (sym e ∙ q))
      (deriv-Matches c r u (d ∷ u) (ap (λ x. x ∷ u) (cons_head (sym e ∙ q))) a) b)
deriv-Matches c (alt r s) t w e (left a) = left (deriv-Matches c r t w e a)
deriv-Matches c (alt r s) t w e (right b) = right (deriv-Matches c s t w e b)
deriv-Matches c (star r) t [] e stop = absurd (cons-not-nil e)
deriv-Matches c (star r) t w e (again d u v q a b) =
    both u v (cons_tail (sym e ∙ q))
      (deriv-Matches c r u (d ∷ u) (ap (λ x. x ∷ u) (cons_head (sym e ∙ q))) a) b

pub accepts-Matches : (r : Regex) (t : Text) → accepts r t ≡ true → Matches r t
unfolding accepts
accepts-Matches r [] h = Matches-nullable r h
accepts-Matches r (c ∷ t) h = Matches-deriv c r t (accepts-Matches (deriv c r) t h)

pub Matches-accepts : (r : Regex) (t : Text) → Matches r t → accepts r t ≡ true
unfolding accepts
Matches-accepts r [] m = nullable-Matches r [] refl m
Matches-accepts r (c ∷ t) m = Matches-accepts (deriv c r) t (deriv-Matches c r t (c ∷ t) refl m)

-- The text has a part that r describes.
abbrev pub HasPart : Regex → Text → Type 0
HasPart r t = (u : Text) × (v : Text) × (w : Text) × (t ≡ u ++ (v ++ w)) × Matches r v

abbrev HasStart : Regex → Text → Type 0
HasStart r t = (v : Text) × (w : Text) × (t ≡ v ++ w) × Matches r v

accepts_start-HasStart : (r : Regex) (t : Text) → accepts_start r t ≡ true → HasStart r t
unfolding accepts_start
accepts_start-HasStart r [] h = ([], [], refl, Matches-nullable r h)
accepts_start-HasStart r (c ∷ t) h = elim (or_cases (nullable r) (accepts_start (deriv c r) t) h) [
  | inl now ↦ ([], c ∷ t, refl, Matches-nullable r now)
  | inr later ↦
      let (v, w, e, m) = accepts_start-HasStart (deriv c r) t later in
      (c ∷ v, w, ap (λ x. c ∷ x) e, Matches-deriv c r v m)
]

HasStart-accepts_start : (r : Regex) (v w : Text) → Matches r v → accepts_start r (v ++ w) ≡ true
unfolding accepts_start
HasStart-accepts_start r [] [] m = nullable-Matches r [] refl m
HasStart-accepts_start r [] (c ∷ w) m = rw (nullable-Matches r [] refl m) refl
HasStart-accepts_start r (c ∷ v) w m =
    rw (HasStart-accepts_start (deriv c r) v w (deriv-Matches c r v (c ∷ v) refl m)) (or_right _)

pub finds-HasPart : (r : Regex) (t : Text) → finds r t ≡ true → HasPart r t
unfolding finds
finds-HasPart r [] h = let (v, w, e, m) = accepts_start-HasStart r [] h in ([], v, w, e, m)
finds-HasPart r (c ∷ t) h = elim (or_cases (accepts_start r (c ∷ t)) (finds r t) h) [
  | inl here ↦ let (v, w, e, m) = accepts_start-HasStart r (c ∷ t) here in ([], v, w, e, m)
  | inr there ↦ let (u, v, w, e, m) = finds-HasPart r t there in (c ∷ u, v, w, ap (λ x. c ∷ x) e, m)
]

finds-append : (r : Regex) (u v w : Text) → Matches r v → finds r (u ++ (v ++ w)) ≡ true
unfolding finds
finds-append r [] [] [] m = HasStart-accepts_start r [] [] m
finds-append r [] [] (c ∷ w) m = rw (HasStart-accepts_start r [] (c ∷ w) m) refl
finds-append r [] (c ∷ v) w m = rw (HasStart-accepts_start r (c ∷ v) w m) refl
finds-append r (c ∷ u) v w m = rw (finds-append r u v w m) (or_right _)

pub HasPart-finds : (r : Regex) (t : Text) → HasPart r t → finds r t ≡ true
HasPart-finds r t (u, v, w, e, m) = ap (finds r) e ∙ finds-append r u v w m
