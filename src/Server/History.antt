-- ===== src/Server/History.antt =====
-- What the journal of a request tells: `creerDemande` and `archivageDemande` note each state that a
-- request comes into.
pub mod Forms
pub mod Runs
use package.text.Mathlib.Text.{◌==◌ as str_eq}
use cidemis.Base.{
  ℕ, String, Bool, true, false, not, ◌&&◌, ◌||◌, Option, none, some, List, [], ◌∷◌, Text, same,
  ◌==◌, ◌≡◌, ◌≢◌, refl, sym, ap, ◌∙◌, ◌⊎◌, inl, inr, if◌then◌else◌, arith, Bool-cases, ==_iff,
}
use cidemis.Server.{
  Result, ok, null_pointer, ◌>>=◌, >>=-ok, ok-injective, non_null, User, Notice, Demande, contains,
  role_catalogueur, role_corcat, type_demande_creation, etat_archivee,
}
use cidemis.Server.Rights.{can_user_archive}
use cidemis.Server.Workflow.{
  DemandeDto, change_etat, send_to_centre, creer_notice, etat_of_pays, set_etat_issn,
  process_update_demande,
}
use cidemis.Server.Journal.{
  last_journal, save_journal, update_journal, archiver_demande, archivage_demande,
}
use cidemis.Server.Creation.{
  put_pays, put_titre, put_profil, is_titled, update_on_cbs, finish_known, finish, start, blank,
  process_new_demande, process_demande, creer_demande,
}
use cidemis.Server.Steps.{
  Edge, Move, stays, goes, if-holds, send_to_centre-sent, creer_notice-sent,
  process_update_demande-Move,
}

-- A journal, latest first, whose states follow each other along the edges of the workflow: the first
-- is one of a new request, no state comes after itself, and each comes from the one before by an
-- action in some role, by the choice of another country, or by the archiving of a closed request.
pub data Next (from to : ℕ) : Type 0 where
  acted : (role : ℕ) → Edge role from to → Next from to
  redirected : contains to (25 ∷ 33 ∷ []) ≡ true → Next from to
  archived : contains from (36 ∷ 37 ∷ 38 ∷ []) ≡ true → to ≡ 39 → Next from to

pub data IsHistory : List ℕ → Type 0 where
  opened : (e : ℕ) → contains e (22 ∷ 23 ∷ 24 ∷ 25 ∷ 26 ∷ 33 ∷ []) ≡ true → IsHistory (e ∷ [])
  continued :
      (e f : ℕ) (es : List ℕ) → IsHistory (e ∷ es) → Next e f → f ≢ e → IsHistory (f ∷ e ∷ es)

-- The journal ends with the state of the request.
pub data IsNoted (d : Demande) : Type 0 where
  noted : (es : List ℕ) → d.journal ≡ d.etat ∷ es → IsHistory (d.etat ∷ es) → IsNoted d

-- The state of a request, the same or the next one, is to be noted in its journal.
pub data IsDue (d : Demande) : Type 0 where
  fresh : d.journal ≡ [] → contains d.etat (22 ∷ 23 ∷ 24 ∷ 25 ∷ 26 ∷ 33 ∷ []) ≡ true → IsDue d
  due :
      (e : ℕ) (es : List ℕ)
      → d.journal ≡ e ∷ es
      → IsHistory (e ∷ es)
      → (d.etat ≡ e) ⊎ Next e d.etat
      → IsDue d

save_journal-ok :
    (d d' : Demande) (e : ℕ) (es : List ℕ)
    → d.journal ≡ e ∷ es
    → save_journal d ≡ ok d'
    → (d'.etat ≡ d.etat)
      × ((e ≡ d.etat) × (d'.journal ≡ e ∷ es) ⊎ (d.etat ≢ e) × (d'.journal ≡ d.etat ∷ e ∷ es))
unfolding save_journal
save_journal-ok d d' e es j r = ground arith

save_journal-IsNoted :
    (d d' : Demande) (e : ℕ) (es : List ℕ)
    → d.journal ≡ e ∷ es
    → IsHistory (e ∷ es)
    → (d.etat ≡ e) ⊎ Next e d.etat
    → save_journal d ≡ ok d'
    → IsNoted d'
save_journal-IsNoted d d' e es j h n r =
    let (state, cases) = save_journal-ok d d' e es j r in
    elim cases [
      | inl (s, j') ↦ noted es (rw (state, sym s) j') (rw (state, sym s) h)
      | inr (ne, j') ↦ elim n [
        | inl s ↦ absurd (ne s)
        | inr step ↦ noted (e ∷ es) (rw state j') (rw state (continued e d.etat es h step ne))
      ]
    ]

update_journal-first :
    (d d' : Demande)
    → d.journal ≡ []
    → update_journal d ≡ ok d'
    → (d'.etat ≡ d.etat) × (d'.journal ≡ d.etat ∷ [])
unfolding update_journal
update_journal-first d d' j r = ground arith

pub update_journal-IsNoted : (d d' : Demande) → IsDue d → update_journal d ≡ ok d' → IsNoted d'
unfolding update_journal
update_journal-IsNoted d d' (fresh j first) r =
    let (state, j') = update_journal-first d d' j r in
    noted [] (rw state j') (rw state (opened d.etat first))
update_journal-IsNoted d d' (due e es j h n) r =
    save_journal-IsNoted d d' e es j h n (sym (rw j refl) ∙ r)

-- What is done between the action and the note keeps the journal, and may choose another country.
pub data Keeps (d d' : Demande) : Type 0 where
  keeps :
      d'.journal ≡ d.journal
      → (d'.etat ≡ d.etat) ⊎ (contains d'.etat (25 ∷ 33 ∷ []) ≡ true)
      → Keeps d d'

pub Keeps-IsDue : (d d' : Demande) → Keeps d d' → IsDue d → IsDue d'
Keeps-IsDue d d' (keeps k (inl s)) (fresh j first) = fresh (k ∙ j) (rw s first)
Keeps-IsDue d d' (keeps k (inr h)) (fresh j first) = fresh (k ∙ j) (ground arith)
Keeps-IsDue d d' (keeps k (inl s)) (due e es j h n) = due e es (k ∙ j) h (rw s n)
Keeps-IsDue d d' (keeps k (inr to)) (due e es j h n) = due e es (k ∙ j) h (inr (redirected to))

can_user_archive-closed :
    (user : User) (d : Demande)
    → can_user_archive user d ≡ ok true
    → contains d.etat (36 ∷ 37 ∷ 38 ∷ []) ≡ true
unfolding can_user_archive
can_user_archive-closed user d h = ground arith

pub archivage_demande-IsNoted :
    (user : User) (d d' : Demande)
    → IsNoted d
    → archivage_demande user (some d) ≡ ok d'
    → IsNoted d'
unfolding archivage_demande archiver_demande change_etat
archivage_demande-IsNoted user d d' (noted es j h) e =
    let (may, c, r) =
      >>=-ok (can_user_archive user d) (λ may. if may then archiver_demande d else ok d) e in
    by may c r
  where
    by :
        (may : Bool)
        → can_user_archive user d ≡ ok may
        → (if may then archiver_demande d else ok d) ≡ ok d'
        → IsNoted d'
    by true c r =
        save_journal-IsNoted (change_etat etat_archivee d) d' d.etat es j h
          (inr (archived (can_user_archive-closed user d c) refl)) r
    by false c r = rw (sym (ok-injective r)) (IsNoted.noted es j h)
