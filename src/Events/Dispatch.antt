-- ===== src/Events/Dispatch.antt =====
-- Which handlers an event calls, without the order of the calls.
use package.text.Mathlib.Text.{◌==◌ as str_eq}
use package.text.Mathlib.TextEquality.{eq_iff}
use cidemis.Base.{
  String, ◌≡◌, refl, ◌∙◌, Bool, true, false, ◌&&◌, ◌||◌, Option, none, some, List, [], ◌∷◌, ◌++◌,
  Bool-cases, inl, inr, arith, sym,
}
use cidemis.Browser.{member, opt_eq}
use cidemis.Events.Bindings.{page_bindings}
use cidemis.Events.{Binding, Node, touches, fits, due, due_inside, dispatch, undelegate}

abbrev pub any {ℓ} : {A : Type ℓ} → (A → Bool) → List A → Bool
any p [] = false
any p (x ∷ xs) = p x || any p xs

any-ap {ℓ} :
    {A : Type ℓ} (p q : A → Bool) → ((x : A) → p x ≡ q x) → (xs : List A) → any p xs ≡ any q xs
any-ap p q h [] = refl
any-ap p q h (x ∷ xs) = rw (h x, any-ap p q h xs) refl

any-or {ℓ} :
    {A : Type ℓ} (p q : A → Bool) (xs : List A) → any p xs || any q xs ≡ any (λ x. p x || q x) xs
any-or p q [] = refl
any-or p q (x ∷ xs) = ground (arith, any-or p q xs)

any-or_twice {ℓ} :
    {A : Type ℓ} (p q r : A → Bool) (xs : List A)
    → any p xs || (any q xs || any r xs) ≡ any (λ x. p x || (q x || r x)) xs
any-or_twice p q r xs = rw (any-or q r xs) (any-or p (λ x. q x || r x) xs)

member-append :
    (s : String) (xs ys : List String) → member s (xs ++ ys) ≡ member s xs || member s ys
member-append s [] ys = refl
member-append s (x ∷ xs) ys = ground (arith, member-append s xs ys)

-- Whether an element of a path is found.
abbrev pub has : List String → List Node → Bool
has ss [] = false
has ss (n ∷ path) = touches ss n || has ss path

-- Whether an element of a path is found by the inner selector, and one further out by the others.
abbrev pub within : String → List String → List Node → Bool
within inner ss [] = false
within inner ss (n ∷ path) = member inner n && has ss path || within inner ss path

abbrev reached : Option String → List String → List Node → Bool
reached none ss path = has ss path
reached (some inner) ss path = within inner ss path

any-false {ℓ} : {A : Type ℓ} (xs : List A) → any (λ (x : A). false) xs ≡ false
any-false [] = refl
any-false (x ∷ xs) = any-false xs

abbrev inside_fits : Option String → List Node → Bool
inside_fits none below = false
inside_fits (some i) below = has (i ∷ []) below

abbrev reach : Option String → List String → List Node → List Node → Bool
reach none ss below path = has ss path
reach (some i) ss below path = has (i ∷ []) below && has ss path || within i ss path

has-snoc :
    (ss : List String) (below : List Node) (n : Node)
    → has ss (below ++ n ∷ []) ≡ has ss below || touches ss n
has-snoc ss [] n = ground arith
has-snoc ss (m ∷ below) n = ground (arith, has-snoc ss below n)

module _ (h event : String) where
  abbrev mine : Binding → Bool
  mine b = str_eq b.handler h && member event b.events

  member-due :
      (from : Option Node) (node : Node) (bs : List Binding)
      → member h (due event from node bs)
        ≡ any (λ b. mine b && (touches b.selectors node && fits b.inner from)) bs
  unfolding due
  member-due from node [] = refl
  member-due from node (b ∷ bs) = ground (arith, member-due from node bs)

  inside_split :
      (n : Node) (below : List Node) (node : Node) (inner : Option String) (m t : Bool)
      → m && (t && fits inner (some n)) || m && (t && inside_fits inner below)
        ≡ m && (t && inside_fits inner (n ∷ below))
  inside_split n below node none m t = ground arith
  inside_split n below node (some i) m t = ground arith

  inside_none : (m t : Bool) (inner : Option String) → false ≡ m && (t && inside_fits inner [])
  inside_none m t none = ground arith
  inside_none m t (some i) = ground arith

  member-due_inside :
      (below : List Node) (node : Node) (bs : List Binding)
      → member h (due_inside event below node bs)
        ≡ any (λ b. mine b && (touches b.selectors node && inside_fits b.inner below)) bs
  unfolding due_inside
  member-due_inside [] node bs =
      sym (any-false bs)
      ∙ any-ap (λ b. false) (λ b. mine b && (touches b.selectors node && inside_fits b.inner []))
          (λ b. inside_none (mine b) (touches b.selectors node) b.inner) bs
  member-due_inside (n ∷ below) node bs =
      member-append h (due event (some n) node bs) (due_inside event below node bs)
      ∙ rw (member-due (some n) node bs, member-due_inside below node bs)
          (any-or (λ b. mine b && (touches b.selectors node && fits b.inner (some n)))
              (λ b. mine b && (touches b.selectors node && inside_fits b.inner below)) bs
            ∙ any-ap
                (λ b.
                  mine b && (touches b.selectors node && fits b.inner (some n))
                  || mine b && (touches b.selectors node && inside_fits b.inner below))
                (λ b. mine b && (touches b.selectors node && inside_fits b.inner (n ∷ below)))
                (λ b. inside_split n below node b.inner (mine b) (touches b.selectors node)) bs)

  -- One element further out.
  reach_step :
      (below : List Node) (node : Node) (path : List Node) (inner : Option String)
      (ss : List String) (m : Bool)
      → m && (touches ss node && inside_fits inner below)
          || (m && (touches ss node && fits inner none)
              || m && reach inner ss (below ++ node ∷ []) path)
        ≡ m && reach inner ss below (node ∷ path)
  reach_step below node path none ss m = ground arith
  reach_step below node path (some i) ss m = ground (arith, has-snoc (i ∷ []) below node)

  reach_none :
      (below : List Node) (m : Bool) (inner : Option String) (ss : List String)
      → false ≡ m && reach inner ss below []
  reach_none below m none ss = ground arith
  reach_none below m (some i) ss = ground arith

  any_step :
      (below : List Node) (node : Node) (path : List Node) (bs : List Binding)
      → any (λ b. mine b && (touches b.selectors node && inside_fits b.inner below)) bs
          || (any (λ b. mine b && (touches b.selectors node && fits b.inner none)) bs
              || any (λ b. mine b && reach b.inner b.selectors (below ++ node ∷ []) path) bs)
        ≡ any (λ b. mine b && reach b.inner b.selectors below (node ∷ path)) bs
  any_step below node path bs =
      any-or_twice (λ b. mine b && (touches b.selectors node && inside_fits b.inner below))
        (λ b. mine b && (touches b.selectors node && fits b.inner none))
        (λ b. mine b && reach b.inner b.selectors (below ++ node ∷ []) path) bs
      ∙ any-ap
          (λ b.
            mine b && (touches b.selectors node && inside_fits b.inner below)
            || (mine b && (touches b.selectors node && fits b.inner none)
                || mine b && reach b.inner b.selectors (below ++ node ∷ []) path))
          (λ b. mine b && reach b.inner b.selectors below (node ∷ path))
          (λ b. reach_step below node path b.inner b.selectors (mine b)) bs

  member-dispatch :
      (below path : List Node) (bs : List Binding)
      → member h (dispatch event below path bs)
        ≡ any (λ b. mine b && reach b.inner b.selectors below path) bs
  unfolding dispatch
  member-dispatch below [] bs =
      sym (any-false bs)
      ∙ any-ap (λ b. false) (λ b. mine b && reach b.inner b.selectors below [])
          (λ b. reach_none below (mine b) b.inner b.selectors) bs
  member-dispatch below (node ∷ path) bs =
      member-append h (due_inside event below node bs)
        (due event none node bs ++ dispatch event (below ++ node ∷ []) path bs)
      ∙ rw (member-append h (due event none node bs) (dispatch event (below ++ node ∷ []) path bs))
          (rw
            (
              member-due_inside below node bs,
              member-due none node bs,
              member-dispatch (below ++ node ∷ []) path bs,
            )
            (any_step below node path bs))

reach-start :
    (m : Bool) (inner : Option String) (ss : List String) (path : List Node)
    → m && reach inner ss [] path ≡ m && reached inner ss path
reach-start m none ss path = refl
reach-start m (some i) ss path = refl

-- An event calls a handler exactly if one of its bindings for the event is about an element on the
-- way from the target outward, or, for a delegated handler, if its inner selector finds an element
-- on the way and its selector one that is further out.
dispatch-reached :
    (h event : String) (path : List Node) (bs : List Binding)
    → member h (dispatch event [] path bs)
      ≡ any (λ b. mine h event b && reached b.inner b.selectors path) bs
dispatch-reached h event path bs =
    member-dispatch h event [] path bs
    ∙ any-ap (λ b. mine h event b && reach b.inner b.selectors [] path)
        (λ b. mine h event b && reached b.inner b.selectors path)
        (λ b. reach-start (mine h event b) b.inner b.selectors path) bs

str_eq_apart : (a b c : String) → str_eq a b ≡ true → str_eq b c ≡ false → str_eq a c ≡ false
str_eq_apart a b c same other = rw ((eq_iff a b).0 same) other

and-last : (a b c d : Bool) → a && (b && (c && d)) ≡ true → d ≡ true
and-last a b c d h = ground (arith, h)

any-undelegate :
    (selector inner taken handler event : String) (path : List Node) (bs : List Binding)
    → str_eq taken handler ≡ false
    → any
        (λ b. mine handler event b && reached b.inner b.selectors path)
        (undelegate selector inner event taken bs)
      ≡ any (λ b. mine handler event b && reached b.inner b.selectors path) bs
unfolding undelegate
any-undelegate selector inner taken handler event path [] h = refl
any-undelegate selector inner taken handler event path (b ∷ bs) h =
    let t = touches b.selectors (selector ∷ []) in
    let i = opt_eq b.inner (some inner) in
    let e = member event b.events in
    let p = str_eq b.handler taken in
    elim (Bool-cases (t && (i && (e && p)))) [
      | inl off ↦
          rw
            (
              off,
              any-undelegate selector inner taken handler event path bs h,
              str_eq_apart b.handler taken handler (and-last t i e p off) h,
            )
            refl
      | inr on ↦ rw (on, any-undelegate selector inner taken handler event path bs h) refl
    ]

-- To take a handler off leaves every other one where it was.
pub dispatch-undelegate :
    (selector inner taken handler event : String) (path : List Node) (bs : List Binding)
    → str_eq taken handler ≡ false
    → member handler (dispatch event [] path (undelegate selector inner event taken bs))
      ≡ member handler (dispatch event [] path bs)
dispatch-undelegate selector inner taken handler event path bs h =
    dispatch-reached handler event path (undelegate selector inner event taken bs)
    ∙ any-undelegate selector inner taken handler event path bs h
    ∙ sym (dispatch-reached handler event path bs)

-- A click calls `selectDemande` exactly if it is in a row of the table's body, wherever in the
-- row that is: also a click on one of the buttons of a row turns whether the row is selected.
pub dispatch-select_binding :
    (path : List Node)
    → member "selectDemande" (dispatch "click" [] path page_bindings)
      ≡ within "tr" ("#liste_demande tbody" ∷ []) path
unfolding page_bindings
dispatch-select_binding path =
    dispatch-reached "selectDemande" "click" path page_bindings ∙ ground arith
