-- ===== src/Diacritics/Tests.antt =====
-- Diacritics of concrete texts.
use cidemis.Base.{◌≡◌, refl, codes}
use cidemis.Diacritics.{remove_diacritics}

ligature : remove_diacritics (codes "Œuvre à l'été") ≡ codes "OEuvre a l'ete"
unfolding remove_diacritics codes
ligature = refl

-- A sign that the table does not hold is kept.
kept : remove_diacritics (codes "10 €") ≡ codes "10 €"
unfolding remove_diacritics codes
kept = refl
