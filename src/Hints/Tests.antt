-- ===== src/Hints/Tests.antt =====
-- Hints at concrete fields.
use cidemis.Base.{◌≢◌, String, some, arith}
use package.text.Mathlib.TextEquality.{eq_iff}
use cidemis.Samples.{hinted}

typed_ne_empty : ◌≢◌ {A = String} "texte" ""
typed_ne_empty = ground (arith, eq_iff "texte" "")

typed_ne_hint : (hinted "Commentaires" "texte").attrs "blurText" ≢ some "texte"
typed_ne_hint = ground (arith, eq_iff "Commentaires" "texte")
