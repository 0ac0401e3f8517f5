-- ===== src/Diacritics/Removal.antt =====
-- `removeDiacritics` as a normal form: a second removal changes nothing, and texts of ASCII units
-- are their own.
use cidemis.Base.{
  ℕ, ◌≡◌, ◌≤◌, refl, sym, ap, ap₂, ◌∙◌, Bool, true, ◌&&◌, Option, none, some, [], ◌∷◌, ◌++◌,
  append_assoc, append-nil, ◌⊎◌, and_left, and_right, Text, leb, ◌==◌, Bool-cases, inl, inr, arith,
  All, all,
}
use cidemis.Diacritics.{
  CharMap, char_lookup, diacritics_map, replacement, or_self, remove_by, remove_diacritics,
}

abbrev IsAscii : Text → Type 0
IsAscii = All (λ c. c ≤ 0x7E)

-- Every base of the table is ASCII, tested binding by binding.
abbrev bases_ascii : CharMap → Bool
bases_ascii [] = true
bases_ascii ((c, base) ∷ m) = all (λ b. leb b 0x7E) base && bases_ascii m

diacritics_map_ascii : bases_ascii diacritics_map ≡ true
unfolding diacritics_map
diacritics_map_ascii = refl

all-IsAscii : (s : Text) → all (λ b. leb b 0x7E) s ≡ true → IsAscii s
all-IsAscii [] h = tt
all-IsAscii (c ∷ s) h = (ground arith, all-IsAscii s (ground arith))

some_cancel : (s t : Text) → some s ≡ some t → s ≡ t
some_cancel s t e = cc

char_lookup-IsAscii :
    (m : CharMap) (c : ℕ) (base : Text)
    → bases_ascii m ≡ true
    → char_lookup c m ≡ some base
    → IsAscii base
unfolding char_lookup
char_lookup-IsAscii [] c base h e = cc
char_lookup-IsAscii ((d, b) ∷ m) c base h e = elim (Bool-cases (d == c)) [
  | inl here ↦ rw (← some_cancel b base (rw here at e)) (all-IsAscii b (and_left _ _ h))
  | inr there ↦ char_lookup-IsAscii m c base (and_right _ _ h) (rw there at e)
]

remove_by-IsAscii : (m : CharMap) (s : Text) → IsAscii s → remove_by m s ≡ s
unfolding remove_by replacement
remove_by-IsAscii m [] h = refl
remove_by-IsAscii m (c ∷ s) (p, h) = ground (arith, remove_by-IsAscii m s h)

remove_by-append :
    (m : CharMap) (s t : Text) → remove_by m (s ++ t) ≡ remove_by m s ++ remove_by m t
unfolding remove_by
remove_by-append m [] t = refl
remove_by-append m (c ∷ s) t =
    ap (◌++◌ (replacement m c)) (remove_by-append m s t)
    ∙ sym (append_assoc (replacement m c) (remove_by m s) (remove_by m t))

-- A replacement is the unit itself, or an ASCII base.
or_self-cases :
    (o : Option Text) (c : ℕ)
    → ((base : Text) → o ≡ some base → IsAscii base)
    → (or_self o c ≡ c ∷ []) ⊎ IsAscii (or_self o c)
or_self-cases none c h = inl refl
or_self-cases (some []) c h = inl refl
or_self-cases (some (b ∷ base)) c h = inr (h (b ∷ base) refl)

replacement-cases :
    (m : CharMap) (c : ℕ)
    → bases_ascii m ≡ true
    → (replacement m c ≡ c ∷ []) ⊎ IsAscii (replacement m c)
unfolding replacement
replacement-cases m c h = elim (Bool-cases (leb c 0x7E)) [
  | inl low ↦ inl (rw low)
  | inr high ↦
      rw high (or_self-cases (char_lookup c m) c (λ base e. char_lookup-IsAscii m c base h e))
]

remove_by-replacement :
    (m : CharMap) (c : ℕ) → bases_ascii m ≡ true → remove_by m (replacement m c) ≡ replacement m c
unfolding remove_by
remove_by-replacement m c h = elim (replacement-cases m c h) [
  | inl e ↦ ap (remove_by m) e ∙ append-nil (replacement m c)
  | inr a ↦ remove_by-IsAscii m (replacement m c) a
]

remove_by_idem :
    (m : CharMap) (s : Text) → bases_ascii m ≡ true → remove_by m (remove_by m s) ≡ remove_by m s
unfolding remove_by
remove_by_idem m [] h = refl
remove_by_idem m (c ∷ s) h =
    remove_by-append m (replacement m c) (remove_by m s)
    ∙ ap₂ ◌++◌ (remove_by-replacement m c h) (remove_by_idem m s h)

-- Removing the diacritics of a text a second time changes nothing.
pub remove_diacritics_idem :
    (s : Text) → remove_diacritics (remove_diacritics s) ≡ remove_diacritics s
unfolding remove_diacritics
remove_diacritics_idem s = remove_by_idem diacritics_map s diacritics_map_ascii

-- Texts are treated unit by unit: the removal goes through concatenation.
pub remove_diacritics-append :
    (s t : Text) → remove_diacritics (s ++ t) ≡ remove_diacritics s ++ remove_diacritics t
unfolding remove_diacritics
remove_diacritics-append s t = remove_by-append diacritics_map s t
