-- ===== src/Server/Journal.antt =====
-- The journal of a request: `getLastjournal` (model/cidemis/Demandes.java), `saveJournal`,
-- `updateJournal` and `archiverDemande` (service/impl/DemandesService.java), and `archivageDemande`
-- (controller/DemandeController.java).
use cidemis.Base.{ℕ, Bool, true, false, Option, none, some, List, [], ◌∷◌, ◌==◌, if◌then◌else◌}
use cidemis.Server.{Result, ok, ◌>>=◌, non_null, User, Demande, etat_archivee}
use cidemis.Server.Rights.{can_user_archive}
use cidemis.Server.Workflow.{change_etat}

abbrev pub last_journal : List ℕ → Option ℕ
last_journal [] = none
last_journal (e ∷ es) = some e

-- A state is noted when it is not the last one.
unfoldable pub save_journal : Demande → Result Demande
save_journal d = do
  last ← non_null (last_journal d.journal)
  (if last == d.etat then ok d else ok (record d { journal = d.etat ∷ d.journal }))

abbrev is_empty : List ℕ → Bool
is_empty [] = true
is_empty (e ∷ es) = false

unfoldable pub update_journal : Demande → Result Demande
unfolding save_journal
update_journal d =
    if is_empty d.journal then ok (record d { journal = d.etat ∷ [] }) else save_journal d

unfoldable pub archiver_demande : Demande → Result Demande
unfolding save_journal change_etat
archiver_demande d = save_journal (change_etat etat_archivee d)

-- `found` is the request of the number that the page sends.
unfoldable pub archivage_demande : User → Option Demande → Result Demande
unfolding archiver_demande can_user_archive
archivage_demande user found = do
  d ← non_null found
  may ← can_user_archive user d
  (if may then archiver_demande d else ok d)
