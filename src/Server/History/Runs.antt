-- ===== src/Server/History/Runs.antt =====
-- Requests as users make them, and their journals.
use cidemis.Base.{ℕ, String, Option, none, some, List, Text, ◌∷◌, ◌≡◌, ◌≢◌, arith, sym, ◌∙◌}
use cidemis.Server.{etat_precision_par_corcat, ok, User, Demande}
use cidemis.Server.Workflow.{DemandeDto}
use cidemis.Server.Journal.{archivage_demande}
use cidemis.Server.Creation.{creer_demande}
use cidemis.Server.Steps.{
  Edge, validated, specified, sent, created, taken, asked_cataloguer, asked_corcat, accepted,
  closed,
}
use cidemis.Server.History.{
  acted, redirected, archived, IsHistory, opened, continued, noted, IsNoted,
  archivage_demande-IsNoted,
}
use cidemis.Server.History.Forms.{MayCreate, creer_demande-IsNoted}

same_request :
    (demandes : ℕ → Option Demande) {id id' : ℕ} {d d' : Demande}
    → Option.some id ≡ some id'
    → demandes id ≡ some d
    → demandes id' ≡ some d'
    → d' ≡ d
same_request demandes is f f' = cc

-- A request as users make it, by any forms that they send and by archiving it.
pub data Reach (pays_fr : List Text) (centre_of : Text → Option String) : Demande → Type 0 where
  created_by :
      {d : Demande} (demandes : ℕ → Option Demande) (next_id : ℕ) (user : User) (dto : DemandeDto)
      → dto.id_demande ≡ none
      → MayCreate user dto.action
      → creer_demande pays_fr centre_of demandes next_id user dto ≡ ok d
      → Reach pays_fr centre_of d
  sent_by :
      {d d' : Demande} (demandes : ℕ → Option Demande) (next_id id : ℕ) (user : User)
      (dto : DemandeDto)
      → Reach pays_fr centre_of d
      → dto.id_demande ≡ some id
      → demandes id ≡ some d
      → creer_demande pays_fr centre_of demandes next_id user dto ≡ ok d'
      → Reach pays_fr centre_of d'
  archived_by :
      {d d' : Demande} (user : User)
      → Reach pays_fr centre_of d
      → archivage_demande user (some d) ≡ ok d'
      → Reach pays_fr centre_of d'

-- A request that users made by forms, the first one from a correspondent, or from a cataloguer
-- who does not ask for a new record, and that they archived or not, has a journal whose last
-- state is that of the request, in which no state follows itself, and each comes from the one
-- before by an action along the edges of the workflow, by the choice of another country or by the
-- archiving of a closed request.
pub Reach-IsNoted :
    (pays_fr : List Text) (centre_of : Text → Option String) (d : Demande)
    → Reach pays_fr centre_of d
    → IsNoted d
Reach-IsNoted pays_fr centre_of d (created_by demandes next_id user dto is may r) =
    creer_demande-IsNoted pays_fr centre_of demandes next_id user dto (λ _. may) (λ id d₁ is' f. cc)
      d r
Reach-IsNoted pays_fr centre_of d' (sent_by {d} demandes next_id id user dto s is f r) =
    creer_demande-IsNoted pays_fr centre_of demandes next_id user dto (λ is'. cc)
      (λ id' d₁ is' f'.
        rw (same_request demandes (sym is ∙ is') f f') (Reach-IsNoted pays_fr centre_of d s))
      d' r
Reach-IsNoted pays_fr centre_of d' (archived_by {d} user s r) =
    archivage_demande-IsNoted user d d' (Reach-IsNoted pays_fr centre_of d s) r

Edge-ne : (role from to : ℕ) → Edge role from to → to ≢ etat_precision_par_corcat
Edge-ne role from to (validated _ h) same_ = ground arith
Edge-ne role from to (specified _ h) same_ = ground arith
Edge-ne role from to (sent _ h) same_ = ground arith
Edge-ne role from to (created _ h) same_ = ground arith
Edge-ne role from to (taken _ h) same_ = ground arith
Edge-ne role from to (asked_cataloguer _ h) same_ = ground arith
Edge-ne role from to (asked_corcat _ h) same_ = ground arith
Edge-ne role from to (accepted _ h) same_ = ground arith
Edge-ne role from to (closed h) same_ = ground arith

IsHistory-ne : (e : ℕ) (es : List ℕ) → IsHistory (e ∷ es) → e ≢ etat_precision_par_corcat
IsHistory-ne e es (opened _ first) same_ = ground arith
IsHistory-ne e es (continued e₁ _ es₁ h (acted role edge) ne) same_ = Edge-ne role e₁ e edge same_
IsHistory-ne e es (continued e₁ _ es₁ h (redirected to) ne) same_ = ground arith
IsHistory-ne e es (continued e₁ _ es₁ h (archived from to) ne) same_ = ground arith

-- No request that users made by forms, the first one from a correspondent, or from a cataloguer
-- who does not ask for a new record, and archived or not, is ever in the state of a precision
-- given by a correspondent, for which the rights, the actions and the lists test.
pub Reach-ne :
    (pays_fr : List Text) (centre_of : Text → Option String) (d : Demande)
    → Reach pays_fr centre_of d
    → d.etat ≢ etat_precision_par_corcat
Reach-ne pays_fr centre_of d s = elim (Reach-IsNoted pays_fr centre_of d s) [
  | noted es j h ↦ IsHistory-ne d.etat es h
]
