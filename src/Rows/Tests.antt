-- ===== src/Rows/Tests.antt =====
-- Clicks in a concrete row.
use package.text.Mathlib.Text.{◌==◌ as str_eq}
use cidemis.Base.{none, some, true, [], if◌then◌else◌}
use cidemis.Browser.{Element}
use cidemis.Samples.{field, page}
use cidemis.Rows.{Table}

abbrev listing : Table
listing = record { world = page []; made = true; reloads = 0 }

-- The button of the request 7.
abbrev delete_button : Element
delete_button = record (field "") {
  attrs = λ name. if str_eq name "demandenum" then some "7" else none;
}
