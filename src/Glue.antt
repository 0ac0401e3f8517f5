-- ===== src/Glue.antt =====
-- The small scripts of the page: the date of the last synchronisation (app.liste-demandes.js) and
-- the statistics (piwik.js), both in web/src/main/webapp/view/static/js; and `initPage` with what
-- the page is when it is ready (scripts.js).
mod Tests
use cidemis.Base.{ℕ, String, Bool, true, false, Option, none, some, List, [], ◌∷◌, ◌++◌, Text}
use cidemis.Browser.{World, on, set_text}
use cidemis.Sending.{Completion, answered, failed}
use cidemis.Hints.{initblur_text_element}
use cidemis.Tags.{TagitOptions, init_tag_displaying}
use cidemis.Events.{Binding}
use cidemis.Events.Bindings.{page_bindings, profil_binding}
use cidemis.Keys.{Called, init_validate_on_enter}
use cidemis.Setup.{TableOptions}
use cidemis.Opening.{Opened, init_data_tables}
use cidemis.Service

-- `setLastDateSynchronised`, up to its request, which is sent whether or not the element is there.
unfoldable pub start_last_date : World → World
start_last_date w = record w { gets = record { url = "LastPPNSynchronized"; params = [] } ∷ w.gets }

-- Its completion.
unfoldable pub end_last_date : Completion → World → World
end_last_date (answered data_) w = on "#lastDateSynchronisezSudoc" (set_text data_) w
end_last_date failed w = on "#lastDateSynchronisezSudoc" (set_text "Erreur...") w

-- What is done when the page is ready.
abbrev list_ready : World → World
list_ready w = start_last_date w

-- A command to the statistics: its name, and a text or a number.
pub data Argument : Type 0 where
  text : String → Argument
  number : ℕ → Argument

abbrev Command : Type 0
Command = List Argument

pub record Script : Type 0 where
  pub kind : String
  async : Bool
  defer : Bool
  src : String

-- `_paq`, and the scripts of the document in their order.
pub record Statistics : Type 0 where
  pub paq : List Command
  pub scripts : List Script

abbrev piwik_url : String
piwik_url = "https://piwik.abes.fr/"

abbrev pub piwik_script : Script
piwik_script = record {
  kind = "text/javascript";
  async = true;
  defer = true;
  src = Service.◌++◌ piwik_url "piwik.js";
}

-- `_paq || []`, where `none` is `undefined`.
abbrev or_empty : Option (List Command) → List Command
or_empty none = []
or_empty (some paq) = paq

-- The commands that are pushed.
abbrev pub pushed : List Command
pushed =
    (text "trackPageView" ∷ [])
    ∷ (text "enableLinkTracking" ∷ [])
    ∷ (text "setTrackerUrl" ∷ text (Service.◌++◌ piwik_url "piwik.php") ∷ [])
    ∷ (text "setSiteId" ∷ number 6 ∷ [])
    ∷ []

-- The new script goes before the first one; with no script in the document the call fails.
unfoldable pub piwik : Option (List Command) → List Script → Option Statistics
piwik paq [] = none
piwik paq (s ∷ scripts) =
    some (record { paq = or_empty paq ++ pushed; scripts = piwik_script ∷ s ∷ scripts })

-- The page after `initPage`: the table, the handlers of the keys, the bindings and the field of tags.
pub record Ready : Type 0 where
  pub opened : Opened
  keys : List (ℕ → Called)
  bindings : List Binding
  tagit : TagitOptions

module _ (data_table : TableOptions → World → World) (lower : Text → Text)
    (to_utc_string : ℕ → Text) (now : ℕ) where
  -- `initPage`, which `ready` calls.
  unfoldable pub init_page :
      List String → String → List (String → Option String) → List ℕ → Opened → Ready
  unfolding init_data_tables init_validate_on_enter initblur_text_element init_tag_displaying
  init_page functions pathname ths positions o =
      let opened = init_data_tables data_table to_utc_string now lower pathname ths positions o in
      let w = opened.listing.world in
      record {
        opened = record opened {
          listing = record opened.listing { world = initblur_text_element w };
        };
        keys = init_validate_on_enter functions w;
        bindings = page_bindings ++ profil_binding ∷ [];
        tagit = init_tag_displaying;
      }
