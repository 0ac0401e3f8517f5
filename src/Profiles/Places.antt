-- ===== src/Profiles/Places.antt =====
-- Where the users stand on the panel.
use package.text.Mathlib.Text.{◌==◌ as str_eq}
use package.text.Mathlib.TextEquality.{eq_iff}
use cidemis.Base.{
  ℕ, zero, suc, String, ◌≡◌, ◌≢◌, refl, ap, ◌∙◌, Bool, true, false, ◌||◌, Option, none, some, List,
  [], ◌∷◌, ◌++◌, map, if◌then◌else◌, arith,
}
use cidemis.Profiles.{
  PanelEntry, Profil, fade, fade_in, paint, at, only, without, take_out, entries_of, append_to,
  profil_at,
}

abbrev pub has : String → List PanelEntry → Bool
has u [] = false
has u (l ∷ ls) = str_eq l.user u || has u ls

-- The first profile that has an entry of the user.
abbrev pub place : String → List Profil → Option String
place u [] = none
place u (p ∷ ps) = if has u p.entries then some p.name else place u ps

has-append : (u : String) (ls ms : List PanelEntry) → has u (ls ++ ms) ≡ (has u ls || has u ms)
has-append u [] ms = refl
has-append u (l ∷ ls) ms = ground (arith, has-append u ls ms)

has-without_self : (u : String) (ls : List PanelEntry) → has u (without u ls) ≡ false
unfolding without
has-without_self u [] = refl
has-without_self u (l ∷ ls) = ground (arith, has-without_self u ls)

has-without : (u v : String) (ls : List PanelEntry) → u ≢ v → has v (without u ls) ≡ has v ls
unfolding without
has-without u v [] n = refl
has-without u v (l ∷ ls) n = ground (arith, eq_iff l.user u, eq_iff l.user v, has-without u v ls n)

has-only_self : (u : String) (ls : List PanelEntry) → has u (only u ls) ≡ has u ls
unfolding only
has-only_self u [] = refl
has-only_self u (l ∷ ls) = ground (arith, has-only_self u ls)

has-only : (u v : String) (ls : List PanelEntry) → u ≢ v → has v (only u ls) ≡ false
unfolding only
has-only u v [] n = refl
has-only u v (l ∷ ls) n = ground (arith, eq_iff l.user u, eq_iff l.user v, has-only u v ls n)

has-fade : (u v o : String) (ls : List PanelEntry) → has v (fade u o ls) ≡ has v ls
unfolding fade
has-fade u v o [] = refl
has-fade u v o (l ∷ ls) = ground (arith, has-fade u v o ls)

pub place-fade : (u v o : String) (ps : List Profil) → place v (map (fade_in u o) ps) ≡ place v ps
place-fade u v o [] = refl
place-fade u v o (p ∷ ps) = rw (has-fade u v o p.entries, place-fade u v o ps) refl

pub place-paint :
    (v b g : String) (i : ℕ) (ps : List Profil) → place v (at i (paint b g) ps) ≡ place v ps
unfolding at
place-paint v b g i [] = refl
place-paint v b g zero (p ∷ ps) = refl
place-paint v b g (suc i) (p ∷ ps) = rw (place-paint v b g i ps) refl

-- The entries of one user are taken out and appended elsewhere: the places of the others stay.
module _ (u v : String) (n : u ≢ v) where
  has-entries_of : (ps : List Profil) → has v (entries_of u ps) ≡ false
  unfolding entries_of
  has-entries_of [] = refl
  has-entries_of (p ∷ ps) =
      has-append v (only u p.entries) (entries_of u ps)
      ∙ rw (has-only u v p.entries n) (has-entries_of ps)

  place-take_out : (ps : List Profil) → place v (map (take_out u) ps) ≡ place v ps
  place-take_out [] = refl
  place-take_out (p ∷ ps) = rw (has-without u v p.entries n, place-take_out ps) refl

  place-at :
      (i : ℕ) (es : List PanelEntry) (ps : List Profil)
      → has v es ≡ false
      → place v (at i (λ p. record p { entries = p.entries ++ es }) ps) ≡ place v ps
  unfolding at
  place-at i es [] h = refl
  place-at zero es (p ∷ ps) h = ground (arith, has-append v p.entries es)
  place-at (suc i) es (p ∷ ps) h = rw (place-at i es ps h) refl

  pub place-append_to_other : (i : ℕ) (ps : List Profil) → place v (append_to i u ps) ≡ place v ps
  unfolding append_to
  place-append_to_other i ps =
      place-at i (entries_of u ps) (map (take_out u) ps) (has-entries_of ps) ∙ place-take_out ps

abbrev pub on_panel : String → List Profil → Bool
on_panel u [] = false
on_panel u (p ∷ ps) = has u p.entries || on_panel u ps

pub place-on_panel : (u c : String) (ps : List Profil) → place u ps ≡ some c → on_panel u ps ≡ true
place-on_panel u c [] h = cc
place-on_panel u c (p ∷ ps) h = ground (arith, place-on_panel u c ps)

has-entries_of_self : (u : String) (ps : List Profil) → has u (entries_of u ps) ≡ on_panel u ps
unfolding entries_of
has-entries_of_self u [] = refl
has-entries_of_self u (p ∷ ps) =
    has-append u (only u p.entries) (entries_of u ps)
    ∙ rw (has-only_self u p.entries, has-entries_of_self u ps) refl

profil_name : (q p : Profil) → some q ≡ some p → some q.name ≡ some p.name
profil_name q p e = ap (λ (o : Option Profil). elim o [ none ↦ none | some x ↦ some x.name ]) e

place-at_self :
    (u : String) (i : ℕ) (es : List PanelEntry) (ps : List Profil) (p : Profil)
    → has u es ≡ true
    → profil_at i ps ≡ some p
    → place u (at i (λ q. record q { entries = q.entries ++ es }) (map (take_out u) ps))
      ≡ some p.name
unfolding at
place-at_self u i es [] p h e = cc
place-at_self u zero es (q ∷ ps) p h e =
    rw (has-append u (without u q.entries) es, has-without_self u q.entries, h) (profil_name q p e)
place-at_self u (suc i) es (q ∷ ps) p h e =
    rw (has-without_self u q.entries) (place-at_self u i es ps p h e)

-- The user whose entries are appended stands there afterwards.
pub place-append_to_self :
    (u : String) (i : ℕ) (ps : List Profil) (p : Profil)
    → on_panel u ps ≡ true
    → profil_at i ps ≡ some p
    → place u (append_to i u ps) ≡ some p.name
unfolding append_to
place-append_to_self u i ps p h e =
    place-at_self u i (entries_of u ps) ps p (has-entries_of_self u ps ∙ h) e
