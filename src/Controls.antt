-- ===== src/Controls.antt =====
-- The fields over the columns, whose state is saved with the table (`fnStateSaveParams` and
-- `fnStateLoadParams`), the filters `filtrertermine` and `filtrerarchive`, and the answers to
-- `updateColonnesOptionsAjax` (datatables.js and scripts.js).
pub mod Loaded
mod Tests
use package.text.Mathlib.Text.{◌==◌ as str_eq}
use cidemis.Base.{
  ℕ, zero, suc, String, Bool, true, false, ◌||◌, Option, none, some, List, [], ◌∷◌, Text, codes,
  if◌then◌else◌,
}
use cidemis.Browser.{World, Post, prop_checked}
use cidemis.Filters.{Search}
use cidemis.Sending.{Completion, answered, failed, post}

-- A field: its attribute `name`, its value, and the values of its options, if it is a `select`.
pub record Control : Type 0 where
  pub name : Option String
  pub value : String
  pub options : Option (List String)

-- `sValue[name] = value`
unfoldable pub set_value_of : String → String → List (String × String) → List (String × String)
set_value_of name v [] = (name, v) ∷ []
set_value_of name v ((n, u) ∷ ps) =
    let rest = set_value_of name v ps in if str_eq n name then (name, v) ∷ ps else (n, u) ∷ rest

abbrev save_named : Option String → String → List (String × String) → List (String × String)
save_named none v ps = ps
save_named (some name) v ps = if str_eq name "" then ps else set_value_of name v ps

-- `fnStateSaveParams`: a quotation mark is replaced by itself.
unfoldable pub state_save_params : List Control → List (String × String) → List (String × String)
unfolding set_value_of
state_save_params [] ps = ps
state_save_params (c ∷ cs) ps = state_save_params cs (save_named c.name c.value ps)

abbrev pub has_option : String → List String → Bool
has_option v [] = false
has_option v (o ∷ os) = str_eq o v || has_option v os

-- What is put into a field: an option is selected if there is one with that value.
abbrev pub load_value : Option (List String) → String → Control → Control
load_value none v c = record c { value = v }
load_value (some os) v c = if has_option v os then record c { value = v } else c

unfoldable pub load_control : String → Control → Control
load_control v c = load_value c.options v c

-- `fnStateLoadParams`: the searches of the columns, as the library has saved them, are put into the
-- fields at the same places.
unfoldable pub state_load_params : List String → List Control → List Control
unfolding load_control
state_load_params searches [] = []
state_load_params [] (c ∷ cs) = c ∷ cs
state_load_params (s ∷ searches) (c ∷ cs) = load_control s c ∷ state_load_params searches cs

abbrev pub is_true : Option Bool → Bool
is_true none = false
is_true (some b) = b

-- `filtrertermine` and `filtrerarchive`: how the column of the state is searched.
unfoldable pub filtrertermine : World → Search
filtrertermine w = record {
  column = "col_id_etat:name";
  pattern =
      if is_true (prop_checked w "#divaffichertermine")
      then codes "^((?!(36|37|38)).)*$"
      else codes ".*";
  regex = true;
}

unfoldable pub filtrerarchive : World → Search
filtrerarchive w = record {
  column = "col_id_etat:name";
  pattern =
      if is_true (prop_checked w "#divafficherarchive") then codes "^((?!(39)).)*$" else codes ".*";
  regex = true;
}

-- A line on the console.
pub data Line : Type 0 where
  info error : String → Line

-- `updateColonnesOptionsAjax` up to its request, whose data is a text that `jQuery.param` made.
unfoldable pub start_update :
    (List (Text × Text) → List (String × Option String)) → List (Text × Text) → World → World
start_update param colonnes w = post "optionscolonnes" (param colonnes) w

-- Its completion. `option_text` is the text of the `option` in a text that is read as HTML; a list of
-- found elements counts as true even where it is empty, and what failed is the data that was sent.
unfoldable pub end_update : (String → String) → String → Completion → List Line
end_update option_text sent (answered data_) =
    if str_eq (option_text data_) "OK"
    then info "updateColonnesOptionsAjax OK" ∷ []
    else info "updateColonnesOptionsAjax LOGIN" ∷ []
end_update option_text sent failed =
    if str_eq (option_text sent) "OK" then error "updateColonnesOptionsAjax NOK" ∷ [] else []
