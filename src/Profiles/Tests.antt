-- ===== src/Profiles/Tests.antt =====
-- Drags on a concrete panel.
use cidemis.Base.{String, ◌≡◌, refl, some, [], ◌∷◌}
use cidemis.Samples.{page}
use cidemis.Profiles.{
  PanelEntry, Panel, started, ended, entered, dropped, handle, dragstart, dragenter, dragend, drop,
  drop_on, append_to, entries_of, only, without, at, update_user_profil, fade,
}
use cidemis.Profiles.Places.{place}
use cidemis.Profiles.Server.{run, told, run-told}

abbrev entry : String → PanelEntry
entry u = record { user = u; opacity = "1" }

abbrev panel : Panel
panel = record {
  profils =
      record {
        name = "catalogueur";
        entries = entry "12" ∷ (entry "15" ∷ []);
        border = "";
        background = "";
      }
      ∷ (record { name = "cieps"; entries = []; border = ""; background = "" } ∷ []);
  transfer = "";
  world = page [];
}

moved :
    place "15" (run (started "15" ∷ entered 1 ∷ dropped 1 ∷ ended "15" ∷ []) panel).profils
    ≡ some "cieps"
unfolding handle dragstart dragenter drop drop_on append_to entries_of only without at dragend fade
    update_user_profil
moved = refl

run-told_example :
    place "15" (run (started "15" ∷ dropped 1 ∷ started "15" ∷ dropped 0 ∷ []) panel).profils
    ≡ told "15"
        (run (started "15" ∷ dropped 1 ∷ started "15" ∷ dropped 0 ∷ []) panel).world.posts
        (some "catalogueur")
run-told_example =
    run-told "15" "catalogueur" (started "15" ∷ dropped 1 ∷ started "15" ∷ dropped 0 ∷ []) panel
      refl refl
