-- ===== src/Email/Address.antt =====
-- Which texts `testEmail` takes for an address.
use mathlib.Core.Path.{subst}
use cidemis.Base.{ℕ, ◌≡◌, ◌↔◌, refl, sym, ap, ◌∙◌, true, ◌++◌, [], ◌∷◌, append_assoc, Text}
use cidemis.Regex.{seq, unit, lit, plus}
use cidemis.Regex.Language.{Matches, one, both, stop, HasPart, finds-HasPart, HasPart-finds}
use cidemis.Regex.Shapes.{seq_inv, lit_inv, EndsIn, append-EndsIn, seq_star-EndsIn, plus-EndsIn}
use cidemis.Email.{is_alnum, is_atom, local_part, domain, reg_email, test_email}
use cidemis.Email.Labels.{IsLabel, domain-HasDomain, HasDomain-domain}

local_part-EndsIn : (t : Text) → Matches local_part t → EndsIn is_atom t
unfolding local_part
local_part-EndsIn =
    seq_star-EndsIn is_atom (plus (unit is_atom)) (seq (lit b'.') (plus (unit is_atom)))
      (plus-EndsIn is_atom)
      (λ t m.
        let (u, v, e, a, b) = seq_inv (lit b'.') (plus (unit is_atom)) t m in
        subst (EndsIn is_atom) (sym e) (append-EndsIn is_atom u v (plus-EndsIn is_atom v b)))

-- A text with a unit of a local part, `@`, a label, a point and a letter or digit in a row.
abbrev pub HasAddress : Text → Type 0
HasAddress s =
    (u : Text) × (c : ℕ) × (l : Text) × (d : ℕ) × (w : Text) × (s
      ≡ u ++ c ∷ (b'@' ∷ (l ++ b'.' ∷ (d ∷ w))))
    × (is_atom c ≡ true)
    × IsLabel l
    × (is_alnum d ≡ true)

at_sign :
    (l r w : Text) {y : Text} → y ≡ b'@' ∷ (l ++ b'.' ∷ r) → y ++ w ≡ b'@' ∷ (l ++ b'.' ∷ (r ++ w))
at_sign l r w e = ap (λ t. t ++ w) e ∙ ap (λ t. b'@' ∷ t) (append_assoc l (b'.' ∷ r) w)

host_text : (l : Text) (d : ℕ) (w : Text) → ((l ++ b'.' ∷ []) ++ d ∷ []) ++ w ≡ l ++ b'.' ∷ (d ∷ w)
host_text l d w = append_assoc (l ++ b'.' ∷ []) (d ∷ []) w ∙ append_assoc l (b'.' ∷ []) (d ∷ w)

HasPart-HasAddress : (s : Text) → HasPart reg_email s → HasAddress s
unfolding reg_email
HasPart-HasAddress s (u, v, w, e, m) =
    let (x, y, ev, a, b) = seq_inv local_part (seq (lit b'@') domain) v m in
    let (at, z, ey, f, g) = seq_inv (lit b'@') domain y b in
    let (q, c, ex, h) = local_part-EndsIn x a in
    let (l, d, r, ez, k, j) = domain-HasDomain z g in
    let tail =
      at_sign l (d ∷ r) w (ey ∙ ap (λ t. t ++ z) (lit_inv b'@' at f) ∙ ap (λ t. b'@' ∷ t) ez) in
    (
      u ++ q,
      c,
      l,
      d,
      r ++ w,
      e
          ∙ ap (λ t. u ++ (t ++ w)) (ev ∙ ap (λ t. t ++ y) ex ∙ append_assoc q (c ∷ []) y)
          ∙ ap (λ t. u ++ t) (append_assoc q (c ∷ y) w ∙ ap (λ t. q ++ c ∷ t) tail)
          ∙ sym (append_assoc u q _),
      h,
      k,
      j,
    )

HasAddress-HasPart : (s : Text) → HasAddress s → HasPart reg_email s
unfolding reg_email local_part
HasAddress-HasPart s (u, c, l, d, w, e, h, k, j) =
    let name = both (c ∷ []) [] refl (both (c ∷ []) [] refl (one h) stop) stop in
    let host = (l ++ b'.' ∷ []) ++ d ∷ [] in
    (
      u,
      c ∷ (b'@' ∷ host),
      w,
      e ∙ ap (λ t. u ++ c ∷ (b'@' ∷ t)) (sym (host_text l d w)),
      both (c ∷ []) (b'@' ∷ host) refl name
          (both (b'@' ∷ []) host refl (one refl) (HasDomain-domain l d k j)),
    )

-- `testEmail` accepts exactly the texts that have in a row a letter, digit or mark of a local
-- part, `@`, a label (letters, digits and `-`, of which the first and the last are no `-`), a
-- point, and a letter or digit, all letters small; what stands before and behind these does not
-- matter.
pub test_email-HasAddress_iff : (s : Text) → (test_email s ≡ true) ↔ HasAddress s
unfolding test_email
test_email-HasAddress_iff s = (
  (λ h. HasPart-HasAddress s (finds-HasPart reg_email s h)),
  (λ h. HasPart-finds reg_email s (HasAddress-HasPart s h)),
)

append-HasAddress : (u s w : Text) → HasAddress s → HasAddress (u ++ (s ++ w))
append-HasAddress u s w (a, c, l, d, r, e, h, k, j) =
    let tail = at_sign l (d ∷ r) w refl in
    (
      u ++ a,
      c,
      l,
      d,
      r ++ w,
      ap (λ t. u ++ (t ++ w)) e
          ∙ ap (λ t. u ++ t) (append_assoc a _ w ∙ ap (λ t. a ++ c ∷ t) tail)
          ∙ sym (append_assoc u a _),
      h,
      k,
      j,
    )

-- `testEmail` accepts any text that holds an accepted one, whatever stands before and behind it:
-- its expression is not anchored.
test_email-append : (u s w : Text) → test_email s ≡ true → test_email (u ++ (s ++ w)) ≡ true
test_email-append u s w h =
    (test_email-HasAddress_iff (u ++ (s ++ w))).1
      (append-HasAddress u s w ((test_email-HasAddress_iff s).0 h))
