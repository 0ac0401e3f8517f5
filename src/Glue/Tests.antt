-- ===== src/Glue/Tests.antt =====
-- The date of the last synchronisation, and the statistics.
use cidemis.Base.{◌≡◌, refl, none, some, [], ◌∷◌, map}
use cidemis.Browser.{Element, on, set_text}
use cidemis.Samples.{field, page}
use cidemis.Sending.{failed}
use cidemis.Glue.{end_last_date, piwik, piwik_script, pushed}

date_error :
    map
      (λ (e : Element). e.html)
      ((end_last_date failed (page (("#lastDateSynchronisezSudoc", field "") ∷ []))).elements
        "#lastDateSynchronisezSudoc")
    ≡ "Erreur..." ∷ []
unfolding end_last_date on set_text cidemis.Base.Strings.Literals.escape_html
date_error = refl

-- No script to stand before.
no_script : piwik none [] ≡ none
unfolding piwik
no_script = refl

before_first :
    piwik none (piwik_script ∷ [])
    ≡ some (record { paq = pushed; scripts = piwik_script ∷ piwik_script ∷ [] })
unfolding piwik
before_first = refl
