-- ===== src/Controls/Tests.antt =====
-- The fields over the columns at concrete pages.
use cidemis.Base.{◌≡◌, refl, none, some, true, [], ◌∷◌, List}
use cidemis.Browser.{World}
use cidemis.Samples.{field, page}
use cidemis.Sending.{answered}
use cidemis.Controls.{Control, state_save_params, set_value_of, info, end_update}

abbrev controls : List Control
controls =
    record { name = some "filtercol_ppn"; value = "1234"; options = none }
    ∷ (record { name = none; value = "31"; options = some ("" ∷ "31" ∷ []) } ∷ [])

saved : state_save_params controls [] ≡ ("filtercol_ppn", "1234") ∷ []
unfolding state_save_params set_value_of
saved = refl

-- The checkbox is checked, the span around it is not a checkbox.
abbrev listing : World
listing = page (
    ("#divaffichertermine", field "")
    ∷ ("#affichertermine", record (field "") { checked = some true })
    ∷ ("#divafficherarchive", field "")
    ∷ [])

not_ok : end_update (λ t. t) "" (answered "autre") ≡ info "updateColonnesOptionsAjax LOGIN" ∷ []
unfolding end_update
not_ok = refl
