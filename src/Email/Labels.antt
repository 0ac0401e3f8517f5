-- ===== src/Email/Labels.antt =====
-- The labels and the domains that the expression of `testEmail` describes.
use mathlib.Core.Path.{subst}
use cidemis.Base.{
  ℕ, ◌≡◌, refl, sym, ap, ◌∙◌, inl, inr, Bool, true, false, ◌||◌, ◌++◌, [], ◌∷◌, append_assoc,
  append-nil, Text, All-append,
}
use cidemis.Regex.{seq, unit, star, opt, lit, plus}
use cidemis.Regex.Language.{Matches, nothing, one, both, left, right, stop}
use cidemis.Regex.Shapes.{
  unit_inv, seq_inv, opt_inv, lit_inv, EndsIn, StartsIn, append-StartsIn, AllIn, star-AllIn,
  AllIn-star, AllIn-left, star-StartsIn,
}
use cidemis.Email.{is_alnum, is_inner, label, domain}

-- A label: letters, digits and `-`, of which the first and the last are no `-`.
abbrev pub IsLabel : Text → Type 0
IsLabel l = StartsIn is_alnum l × EndsIn is_alnum l × AllIn is_inner l

or_true : (a b : Bool) → a ≡ true → (a || b) ≡ true
or_true true b h = refl
or_true false b h = cc

short-IsLabel : (a : ℕ) → is_alnum a ≡ true → IsLabel (a ∷ [])
short-IsLabel a h = ((a, [], refl, h), ([], a, refl, h), (or_true (is_alnum a) _ h, tt))

long-IsLabel :
    (a : ℕ) (m : Text) (b : ℕ)
    → is_alnum a ≡ true
    → AllIn is_inner m
    → is_alnum b ≡ true
    → IsLabel (a ∷ (m ++ b ∷ []))
long-IsLabel a m b h hs k = (
  (a, m ++ b ∷ [], refl, h),
  (a ∷ m, b, refl, k),
  (
    or_true (is_alnum a) _ h,
    All-append (λ c. is_inner c ≡ true) m (b ∷ []) hs (or_true (is_alnum b) _ k, tt),
  ),
)

label-IsLabel : (t : Text) → Matches label t → IsLabel t
unfolding label
label-IsLabel t m =
    let inner = seq (star (unit is_inner)) (unit is_alnum) in
    let (u, v, e, a, b) = seq_inv (unit is_alnum) (opt inner) t m in
    let (c, eu, h) = unit_inv is_alnum u a in
    let whole : t ≡ c ∷ v = e ∙ ap (λ x. x ++ v) eu in
    elim (opt_inv inner v b) [
      | inl more ↦
          let (x, y, ev, s, l) = seq_inv (star (unit is_inner)) (unit is_alnum) v more in
          let (d, ey, k) = unit_inv is_alnum y l in
          subst IsLabel (sym (whole ∙ ap (λ z. c ∷ z) (ev ∙ ap (λ z. x ++ z) ey)))
            (long-IsLabel c x d h (star-AllIn is_inner x s) k)
      | inr z ↦ subst IsLabel (sym (whole ∙ ap (λ x. c ∷ x) z)) (short-IsLabel c h)
    ]

head_eq : {c d : ℕ} {t u : Text} → c ∷ t ≡ d ∷ u → c ≡ d
head_eq e = cc

IsLabel-label : (t : Text) → IsLabel t → Matches label t
unfolding label
IsLabel-label t (s, ([], b, e, k), hs) =
    subst (Matches label) (sym e) (both (b ∷ []) [] refl (one k) (right nothing))
IsLabel-label t ((c, q, e', h), (a ∷ m, b, e, k), hs) =
    let h' : is_alnum a ≡ true = ap is_alnum (head_eq (sym e ∙ e')) ∙ h in
    let inner = AllIn-left is_inner m (b ∷ []) (subst (AllIn is_inner) e hs).1 in
    subst (Matches label) (sym e) (
      both (a ∷ []) (m ++ b ∷ []) refl (one h')
        (left (both m (b ∷ []) refl (AllIn-star is_inner m inner) (one k))))

-- A label, a point and the unit that the next label starts with.
abbrev pub HasDomain : Text → Type 0
HasDomain t =
    (l : Text) × (d : ℕ) × (w : Text) × (t ≡ l ++ b'.' ∷ (d ∷ w)) × IsLabel l × (is_alnum d ≡ true)

dotted-StartsIn : (t : Text) → Matches (seq label (lit b'.')) t → StartsIn is_alnum t
dotted-StartsIn t m =
    let (u, v, e, a, b) = seq_inv label (lit b'.') t m in
    subst (StartsIn is_alnum) (sym e) (append-StartsIn is_alnum u v (label-IsLabel u a).0)

rest-StartsIn :
    (y v : Text)
    → Matches (star (seq label (lit b'.'))) y
    → Matches label v
    → StartsIn is_alnum (y ++ v)
rest-StartsIn y v a b = elim (star-StartsIn is_alnum _ dotted-StartsIn y a) [
  | inl z ↦ subst (λ x. StartsIn is_alnum (x ++ v)) (sym z) (label-IsLabel v b).0
  | inr w ↦ append-StartsIn is_alnum y v w
]

pub domain-HasDomain : (t : Text) → Matches domain t → HasDomain t
unfolding domain
domain-HasDomain t m =
    let dotted = seq label (lit b'.') in
    let (u, v, e, a, b) = seq_inv (plus dotted) label t m in
    let (x, y, eu, first, others) = seq_inv dotted (star dotted) u a in
    let (l, z, ex, is_label, point) = seq_inv label (lit b'.') x first in
    let (d, w, es, h) = rest-StartsIn y v others b in
    let ez = lit_inv b'.' z point in
    (
      l,
      d,
      w,
      e
          ∙ ap (λ s. s ++ v) (eu ∙ ap (λ s. s ++ y) (ex ∙ ap (λ s. l ++ s) ez))
          ∙ ap (λ s. s ++ v) (append_assoc l (b'.' ∷ []) y)
          ∙ append_assoc l (b'.' ∷ y) v
          ∙ ap (λ s. l ++ b'.' ∷ s) es,
      label-IsLabel l is_label,
      h,
    )

pub HasDomain-domain :
    (l : Text) (d : ℕ) → IsLabel l → is_alnum d ≡ true → Matches domain ((l ++ b'.' ∷ []) ++ d ∷ [])
unfolding domain
HasDomain-domain l d k h =
    let dotted = both l (b'.' ∷ []) refl (IsLabel-label l k) (one refl) in
    both (l ++ b'.' ∷ []) (d ∷ []) refl (both (l ++ b'.' ∷ []) [] (sym (append-nil _)) dotted stop)
      (IsLabel-label (d ∷ []) (short-IsLabel d h))
