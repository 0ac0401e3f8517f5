-- ===== src/Popups/Tests.antt =====
-- Popups at a concrete page.
use cidemis.Base.{◌≡◌, refl, true, [], ◌∷◌}
use cidemis.Browser.{World, Outside, success, Body, open_window, val}
use cidemis.Samples.{field, page}
use cidemis.Submit.{button}
use cidemis.Popups.{afficherdemande, cherchernotice}

abbrev listing : World
listing = page (("#popup", field "") ∷ ("#popup .popupcontent", field "") ∷ [])

abbrev files : Outside
files = record { reply = λ p. success (Body.text "<p>lettre.pdf</p>"); confirms = λ m. true }

empty_search : (cherchernotice (page (("#searched_value", field "") ∷ []))).submits ≡ []
unfolding cherchernotice val
empty_search = refl

opened : (afficherdemande (button (field "")) listing).opened ≡ "afficher-demande?id=undefined" ∷ []
unfolding afficherdemande open_window
opened = refl
