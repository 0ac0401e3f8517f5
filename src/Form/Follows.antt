-- ===== src/Form/Follows.antt =====
-- How the checks of a form are put together: each adds its condition to the verdict.
use cidemis.Base.{◌≡◌, refl, ap₂, ◌∙◌, Bool, true, false, ◌&&◌, if◌then◌else◌, Bool-cases, inl, inr}
use cidemis.Browser.{World}
use cidemis.Browser.Laws.{SameInputs, SameInputs-refl, SameInputs-trans}
use cidemis.Service.{Answer, truthy}
use cidemis.Form.{State}

-- A condition on the page that only looks at values, attributes and numbers of elements.
abbrev pub Reads : (World → Bool) → Type 0
Reads c = (w w' : World) → SameInputs w w' → c w' ≡ c w

and_assoc : (a b c : Bool) → ((a && b) && c) ≡ (a && (b && c))
and_assoc true b c = refl
and_assoc false b c = refl

-- A check that adds a condition to the verdict, and leaves what conditions look at.
pub record Follows (c : World → Bool) (f : State → State) : Type 0 where
  pub verdict : (st : State) → (f st).0 ≡ (st.0 && c st.1)
  pub inputs : (st : State) → SameInputs st.1 (f st).1

pub Follows-compose :
    {c d : World → Bool} {f g : State → State}
    → Reads d
    → Follows c f
    → Follows d g
    → Follows (λ w. c w && d w) (λ st. g (f st))
Follows-compose {c} {d} {f} {g} r p q = record {
  verdict = λ st.
      q.verdict (f st)
      ∙ ap₂ ◌&&◌ (p.verdict st) (r st.1 (f st).1 (p.inputs st))
      ∙ and_assoc st.0 (c st.1) (d st.1);
  inputs = λ st. SameInputs-trans (p.inputs st) (q.inputs (f st));
}

and_true : (b : Bool) → b ≡ (b && true)
and_true true = refl
and_true false = refl

and_false : (b : Bool) → false ≡ (b && false)
and_false true = refl
and_false false = refl

pub Follows-skip : Follows (λ w. true) (λ st. st)
Follows-skip = record { verdict = λ st. and_true st.0; inputs = λ st. SameInputs-refl st.1 }

pub Follows-refuse :
    (f : World → World)
    → ((w : World) → SameInputs w (f w))
    → Follows (λ w. false) (λ st. (false, f st.1))
Follows-refuse f k = record { verdict = λ st. and_false st.0; inputs = λ st. k st.1 }

pub Follows-if :
    (c : World → Bool) {d e : World → Bool} {f g : State → State}
    → Follows d f
    → Follows e g
    → Follows (λ w. if c w then d w else e w) (λ st. if c st.1 then f st else g st)
Follows-if c {d} {e} {f} {g} p q = record {
  verdict = λ st. elim (Bool-cases (c st.1)) [
    | inl h ↦ rw h (p.verdict st)
    | inr h ↦ rw h (q.verdict st)
  ];
  inputs =
      λ st. elim (Bool-cases (c st.1)) [ inl h ↦ rw h (p.inputs st) | inr h ↦ rw h (q.inputs st) ];
}

-- A question whose answer the verdict follows.
pub Follows-ask :
    (c : World → Bool) (g : World → State)
    → ((w : World) → (g w).0 ≡ c w)
    → ((w : World) → SameInputs w (g w).1)
    → Follows c (λ st. (if (g st.1).0 then st.0 else false, (g st.1).1))
Follows-ask c g v k = record {
  verdict = λ st. rw (v st.1) (choice (c st.1) st.0);
  inputs = λ st. k st.1;
}
  where
    choice : (b x : Bool) → (if b then x else false) ≡ (x && b)
    choice true x = and_true x
    choice false x = and_false x

-- A question to the server, whose answer is an error if it is truthy.
pub Follows-answer :
    (c : World → Bool) (g : World → Answer × World) (bad : Answer → World → World)
    → ((w : World) → truthy (g w).0 ≡ c w)
    → ((w : World) → SameInputs w (g w).1)
    → ((a : Answer) (w : World) → SameInputs w (bad a w))
    → Follows
        (λ w. if c w then false else true)
        (λ st. if truthy (g st.1).0 then (false, bad (g st.1).0 (g st.1).1) else (st.0, (g st.1).1))
Follows-answer c g bad v k kb = record {
  verdict = λ st.
      rw (v st.1) (elim (Bool-cases (c st.1)) [
        | inl h ↦ rw h (and_false st.0)
        | inr h ↦ rw h (and_true st.0)
      ]);
  inputs = λ st. elim (Bool-cases (truthy (g st.1).0)) [
    | inl h ↦ rw h (SameInputs-trans (k st.1) (kb _ _))
    | inr h ↦ rw h (k st.1)
  ];
}

pub Reads-and : {c d : World → Bool} → Reads c → Reads d → Reads (λ w. c w && d w)
Reads-and p q w w' s = ap₂ ◌&&◌ (p w w' s) (q w w' s)
