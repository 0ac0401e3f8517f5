-- ===== src/Columns/Order.antt =====
-- What is kept of the columns: each one's place, and whether and how wide it is shown.
use mathlib.Core.Path.{subst}
use cidemis.Base.{
  ℕ, zero, suc, ◌+◌, ◌≡◌, refl, sym, ap, ◌∙◌, false, Option, none, some, List, [], ◌∷◌, ◌++◌,
  append_assoc, append-nil, Text, same, All, All-append, get_elem?, if◌then◌else◌, arith,
}
use cidemis.Base.Strings.Laws.{same_refl}
use cidemis.Columns.{Shown, set_property, column_option, colonnes, update_colonnes_options}

abbrev pub DistinctNames : List Shown → Type 0
DistinctNames [] = Unit
DistinctNames (c ∷ cs) = All (λ (d : Shown). same c.name d.name ≡ false) cs × DistinctNames cs

abbrev Lacks : Text → List (Text × Text) → Type 0
Lacks name = All (λ (p : Text × Text). same p.0 name ≡ false)

abbrev pub property : Text → List (Text × Text) → Option Text
property name [] = none
property name ((n, v) ∷ ps) = if same n name then some v else property name ps

set_property-Lacks :
    (name value : Text) (ps : List (Text × Text))
    → Lacks name ps
    → set_property name value ps ≡ ps ++ (name, value) ∷ []
unfolding set_property
set_property-Lacks name value [] h = refl
set_property-Lacks name value ((n, v) ∷ ps) (other, h) =
    rw other (ap (λ qs. (n, v) ∷ qs) (set_property-Lacks name value ps h))

Lacks-append :
    (name value : Text) (ps : List (Text × Text)) (cs : List Shown)
    → All (λ (d : Shown). same name d.name ≡ false) cs
    → All (λ (d : Shown). Lacks d.name ps) cs
    → All (λ (d : Shown). Lacks d.name (ps ++ (name, value) ∷ [])) cs
Lacks-append name value ps [] h k = tt
Lacks-append name value ps (d ∷ cs) (h, hs) (k, ks) = (
  All-append (λ (p : Text × Text). same p.0 d.name ≡ false) ps ((name, value) ∷ []) k (h, tt),
  Lacks-append name value ps cs hs ks,
)

some-injective {ℓ} : {A : Type ℓ} {a b : A} → some a ≡ some b → a ≡ b
some-injective {a = a} e = ap (λ o. elim o [ none ↦ a | some x ↦ x ]) e

All-get_elem {ℓ} :
    {A : Type ℓ} (P : A → Type 0) (xs : List A) (i : ℕ) (a : A)
    → All P xs
    → get_elem? xs i ≡ some a
    → P a
All-get_elem P [] i a h e = cc
All-get_elem P (x ∷ xs) zero a (h, hs) e = subst P (some-injective e) h
All-get_elem P (x ∷ xs) (suc i) a (h, hs) e = All-get_elem P xs i a hs e

all_lack : (cs : List Shown) → All (λ (d : Shown). Lacks d.name []) cs
all_lack [] = tt
all_lack (c ∷ cs) = (tt, all_lack cs)

module _ (width : Text → Text) where
  -- The entries of the columns from the place `i` on.
  abbrev entries : ℕ → List Shown → List (Text × Text)
  entries i [] = []
  entries i (c ∷ cs) = (c.name, column_option width i c) ∷ entries (suc i) cs

  colonnes-append :
      (i : ℕ) (cs : List Shown) (ps : List (Text × Text))
      → DistinctNames cs
      → All (λ (d : Shown). Lacks d.name ps) cs
      → colonnes width i cs ps ≡ ps ++ entries i cs
  unfolding colonnes
  colonnes-append i [] ps d h = sym (append-nil ps)
  colonnes-append i (c ∷ cs) ps (n, d) (h, hs) =
      let value = column_option width i c in
      ap (colonnes width (suc i) cs) (set_property-Lacks c.name value ps h)
      ∙ colonnes-append (suc i) cs (ps ++ (c.name, value) ∷ []) d
          (Lacks-append c.name value ps cs n hs)
      ∙ append_assoc ps ((c.name, value) ∷ []) (entries (suc i) cs)

  property-entries :
      (k i : ℕ) (cs : List Shown) (c : Shown)
      → DistinctNames cs
      → get_elem? cs i ≡ some c
      → property c.name (entries k cs) ≡ some (column_option width (k + i) c)
  property-entries k i [] c d e = cc
  property-entries k zero (b ∷ cs) c d e =
      let same_column : b ≡ c = some-injective e in
      subst
        (λ (x : Shown).
          (if same b.name x.name
            then some (column_option width k b)
            else property x.name (entries (suc k) cs))
          ≡ some (column_option width (k + 0) x))
        same_column (rw (same_refl b.name) (ap (λ m. some (column_option width m b)) (omega arith)))
  property-entries k (suc i) (b ∷ cs) c (n, d) e =
      rw (All-get_elem (λ (x : Shown). same b.name x.name ≡ false) cs i c n e) (
        property-entries (suc k) i cs c d e
        ∙ ap (λ m. some (column_option width m c)) (omega arith))

  -- Where the columns have different names, each column's option is sent under its name, with its
  -- place among the columns.
  pub update_colonnes_options-get_elem :
      (cs : List Shown) (i : ℕ) (c : Shown)
      → DistinctNames cs
      → get_elem? cs i ≡ some c
      → property c.name (update_colonnes_options width cs) ≡ some (column_option width i c)
  unfolding update_colonnes_options
  update_colonnes_options-get_elem cs i c d e =
      ap (property c.name) (colonnes-append 0 cs [] d (all_lack cs))
      ∙ property-entries 0 i cs c d e
      ∙ ap (λ m. some (column_option width m c)) (omega arith)
