-- ===== src/Issn/Regular.antt =====
-- The format test of `verifdemande` as its regular expression, `/^\d{4}-\d{3}[\dxX]$/`.
use cidemis.Base.{
  ℕ, ◌≡◌, refl, sym, ◌∙◌, ◌↔◌, Bool, true, false, ◌&&◌, ◌||◌, [], ◌∷◌, Text, arith, Bool-cases, inl,
  inr,
}
use cidemis.Regex.{Regex, fail, empty, unit, seq, alt, lit, nullable, deriv, accepts}
use cidemis.Regex.Language.{Matches, accepts-Matches, Matches-accepts}
use cidemis.Issn.{is_digit, is_check, issn_format}

-- `\d` and `[\dxX]`
abbrev digit : Regex
digit = unit is_digit

abbrev pub issn_regex : Regex
issn_regex = seq digit (
    seq digit
      (seq digit (seq digit (seq (lit b'-') (seq digit (seq digit (seq digit (unit is_check))))))))

accepts-alt : (r s : Regex) (t : Text) → accepts (alt r s) t ≡ accepts r t || accepts s t
unfolding accepts nullable deriv
accepts-alt r s [] = refl
accepts-alt r s (c ∷ t) = accepts-alt (deriv c r) (deriv c s) t

accepts-fail : (t : Text) → accepts fail t ≡ false
unfolding accepts nullable deriv
accepts-fail [] = refl
accepts-fail (c ∷ t) = accepts-fail t

accepts-seq_fail : (r : Regex) (t : Text) → accepts (seq fail r) t ≡ false
unfolding accepts nullable deriv
accepts-seq_fail r [] = refl
accepts-seq_fail r (c ∷ t) =
    accepts-alt (seq fail r) fail t ∙ rw (accepts-seq_fail r t, accepts-fail t) refl

accepts-seq_empty : (r : Regex) (t : Text) → accepts (seq empty r) t ≡ accepts r t
unfolding accepts nullable deriv
accepts-seq_empty r [] = refl
accepts-seq_empty r (c ∷ t) =
    accepts-alt (seq fail r) (deriv c r) t ∙ rw (accepts-seq_fail r t) refl

accepts-unit :
    (p : ℕ → Bool) (r : Regex) (c : ℕ) (t : Text)
    → accepts (seq (unit p) r) (c ∷ t) ≡ p c && accepts r t
unfolding accepts nullable deriv
accepts-unit p r c t = elim (Bool-cases (p c)) [
  | inl fits ↦
      rw fits (
        accepts-alt (seq empty r) fail t
        ∙ rw (accepts-seq_empty r t, accepts-fail t) (ground arith))
  | inr other ↦
      rw other (accepts-alt (seq fail r) fail t ∙ rw (accepts-seq_fail r t, accepts-fail t) refl)
]

accepts-last : (p : ℕ → Bool) (c : ℕ) (t : Text) → accepts (unit p) (c ∷ t) ≡ p c && accepts empty t
unfolding accepts nullable deriv
accepts-last p c t = elim (Bool-cases (p c)) [
  | inl fits ↦ rw fits refl
  | inr other ↦ rw other (accepts-fail t)
]

accepts_end : (t : Text) (c : ℕ) → accepts empty (c ∷ t) ≡ false
unfolding accepts nullable deriv
accepts_end t c = accepts-fail t

-- A text without an end is too short.
accepts_short : (p : ℕ → Bool) (r : Regex) → accepts (seq (unit p) r) [] ≡ false
unfolding accepts nullable
accepts_short p r = refl

accepts_none : (p : ℕ → Bool) → accepts (unit p) [] ≡ false
unfolding accepts nullable
accepts_none p = refl

accepts_all : accepts empty [] ≡ true
unfolding accepts nullable
accepts_all = refl

ruleset issn_steps =
    (accepts-unit, accepts-last, accepts_end, accepts_short, accepts_none, accepts_all)

issn_format-accepts : (s : Text) → accepts issn_regex s ≡ issn_format s
unfolding issn_format
issn_format-accepts [] = simp issn_steps refl
issn_format-accepts (a ∷ []) = simp issn_steps (ground arith)
issn_format-accepts (a ∷ b ∷ []) = simp issn_steps (ground arith)
issn_format-accepts (a ∷ b ∷ c ∷ []) = simp issn_steps (ground arith)
issn_format-accepts (a ∷ b ∷ c ∷ d ∷ []) = simp issn_steps (ground arith)
issn_format-accepts (a ∷ b ∷ c ∷ d ∷ h ∷ []) = simp issn_steps (ground arith)
issn_format-accepts (a ∷ b ∷ c ∷ d ∷ h ∷ e ∷ []) = simp issn_steps (ground arith)
issn_format-accepts (a ∷ b ∷ c ∷ d ∷ h ∷ e ∷ f ∷ []) = simp issn_steps (ground arith)
issn_format-accepts (a ∷ b ∷ c ∷ d ∷ h ∷ e ∷ f ∷ g ∷ []) = simp issn_steps (ground arith)
issn_format-accepts (a ∷ b ∷ c ∷ d ∷ h ∷ e ∷ f ∷ g ∷ k ∷ []) = simp issn_steps (ground arith)
issn_format-accepts (a ∷ b ∷ c ∷ d ∷ h ∷ e ∷ f ∷ g ∷ k ∷ x ∷ s) = simp issn_steps (ground arith)

-- The format test accepts exactly the texts that its expression describes.
pub issn_format-Matches_iff : (s : Text) → (issn_format s ≡ true) ↔ Matches issn_regex s
issn_format-Matches_iff s = (
  λ e. accepts-Matches issn_regex s (issn_format-accepts s ∙ e),
  λ m. sym (issn_format-accepts s) ∙ Matches-accepts issn_regex s m,
)
