-- ===== src/Base/Strings/Split.antt =====
-- How `split` reads a text: parts without the separator's first unit, and the separator itself.
use Prim.Native.Nat.{ℕ}
use mathlib.Core.Path.{◌≡◌, refl, sym, ap, ◌∙◌}
use mathlib.Core.Logic.{◌≢◌}
use mathlib.Core.Bool.{false}
use mathlib.Core.List.{[], ◌∷◌, ◌++◌, append-nil, append_assoc}
use native.Mathlib.Omega.{arith}
use cidemis.Base.Lists.{length, All}
use cidemis.Base.Strings.{Text, split_from, starts_with}
use cidemis.Base.Strings.Laws.{starts_with-append}

abbrev pub Lacks : ℕ → Text → Type 0
Lacks c = All (λ d. d ≢ c)

-- Reading a part that does not hold the separator.
pub split_from-append :
    (c : ℕ) (sep p rest cur : Text)
    → Lacks c p
    → split_from (c ∷ sep) 0 cur (p ++ rest) ≡ split_from (c ∷ sep) 0 (cur ++ p) rest
unfolding split_from starts_with
split_from-append c sep [] rest cur h = rw append-nil
split_from-append c sep (d ∷ p) rest cur (n, h) =
    ground (arith, split_from-append c sep p rest (cur ++ d ∷ []) h, append_assoc cur (d ∷ []) p)

pub split_from_sep :
    (c : ℕ) (rest cur : Text)
    → split_from (c ∷ []) 0 cur (c ∷ rest) ≡ cur ∷ split_from (c ∷ []) 0 [] rest
unfolding split_from starts_with
split_from_sep c rest cur = ground arith

pub split_from-end :
    (c : ℕ) (sep p cur : Text) → Lacks c p → split_from (c ∷ sep) 0 cur p ≡ (cur ++ p) ∷ []
split_from-end c sep p cur h =
    ap (split_from (c ∷ sep) 0 cur) (sym (append-nil p))
    ∙ split_from-append c sep p [] cur h
    ∙ unfold split_from in refl

-- The rest of a separator is passed over.
split_from_skip :
    (sep p rest cur : Text) → split_from sep (length p) cur (p ++ rest) ≡ split_from sep 0 cur rest
unfolding split_from
split_from_skip sep [] rest cur = refl
split_from_skip sep (c ∷ p) rest cur = split_from_skip sep p rest cur

split_from_first :
    (c : ℕ) (sep rest cur : Text)
    → split_from (c ∷ sep) 0 cur (c ∷ (sep ++ rest))
      ≡ cur ∷ split_from (c ∷ sep) (length sep) [] (sep ++ rest)
unfolding split_from
split_from_first c sep rest cur = rw (starts_with-append (c ∷ sep) rest)

pub split_from_hit :
    (c : ℕ) (sep rest cur : Text)
    → split_from (c ∷ sep) 0 cur (c ∷ (sep ++ rest)) ≡ cur ∷ split_from (c ∷ sep) 0 [] rest
split_from_hit c sep rest cur =
    split_from_first c sep rest cur ∙ ap (◌∷◌ cur) (split_from_skip (c ∷ sep) sep rest [])

pub split_from_miss :
    (c : ℕ) (sep : Text) (d : ℕ) (s cur : Text)
    → starts_with (c ∷ sep) (d ∷ s) ≡ false
    → split_from (c ∷ sep) 0 cur (d ∷ s) ≡ split_from (c ∷ sep) 0 (cur ++ d ∷ []) s
unfolding split_from
split_from_miss c sep d s cur h = rw h
