-- ===== src/Setup/Tests.antt =====
-- The table's set-up at concrete inputs.
use cidemis.Base.{ℕ, ◌≡◌, refl, [], ◌∷◌, List, ltb, if◌then◌else◌, arith}
use cidemis.Samples.{field, page}
use cidemis.Files.Counts.{count}
use cidemis.Setup.{remove_item, forget_state}

-- Seventeen columns, the first one moved to the end.
abbrev moved : List ℕ
moved = 1 ∷ 2 ∷ 3 ∷ 4 ∷ 5 ∷ 6 ∷ 7 ∷ 8 ∷ 9 ∷ 10 ∷ 11 ∷ 12 ∷ 13 ∷ 14 ∷ 15 ∷ 16 ∷ 0 ∷ []

moved_once : (n : ℕ) → count n moved ≡ (if ltb n 17 then 1 else 0)
moved_once n = ground arith

forgotten :
    forget_state "/liste-demandes"
      (page (("#login", field "true") ∷ []))
      (("DataTables_liste_demande_/liste-demandes", "{}") ∷ [])
    ≡ []
unfolding forget_state remove_item cidemis.Browser.val
forgotten = refl
