-- ===== src/Tags.antt =====
-- The tags: `initTagDisplaying` (scripts.js), which asks the server for the tags that begin like a
-- text, and `styletags` with the events of the table that call it (datatables.js).
pub mod Colours
mod Tests
use cidemis.Base.{
  ℕ, String, Bool, true, false, Option, none, some, List, [], ◌∷◌, ◌++◌, Text, codes, map, same,
  if◌then◌else◌,
}
use cidemis.Browser.{World, Element, Post}
use cidemis.Selection.{toggle_class}
use cidemis.Columns as Columns
use cidemis.Layout.{CellSize, ajustcolumnsize}
use cidemis.Controls.{Line, info}

-- What is proposed for a text that is typed.
pub record Proposal : Type 0 where
  pub label : String
  pub value : String

pub data TagsReply : Type 0 where
  taggues : List String → TagsReply
  error : String → TagsReply

-- `source`, up to its request.
unfoldable pub start_source : String → World → World
start_source term w = record w {
  gets = record { url = "liste-taggues-ajax"; params = ("term", some term) ∷ [] } ∷ w.gets;
}

abbrev proposal : String → Proposal
proposal item = record { label = item; value = item }

-- `source`, from the completion of its request on: what is given to `response`, if it is called.
unfoldable pub end_source : TagsReply → World → Option (List Proposal) × World
end_source (taggues items) w = (some (map proposal items), w)
end_source (error text) w = (none, record w { dialogs = text ∷ w.dialogs })

-- The options of the field `#formTags`.
pub record TagitOptions : Type 0 where
  min_length : ℕ
  single_field : Bool
  field_name : String
  source : String → World → World
  pub answer : TagsReply → World → Option (List Proposal) × World

unfoldable pub init_tag_displaying : TagitOptions
unfolding start_source end_source
init_tag_displaying = record {
  min_length = 2;
  single_field = true;
  field_name = "tags";
  source = start_source;
  answer = end_source;
}

-- A tag in a list `.readOnlyTags`: its text, and its colour.
pub record Tag : Type 0 where
  pub text_content : Text
  pub background_color : Option Text

abbrev pub spelled : Option Text → Text
spelled none = codes "undefined"
spelled (some t) = t

-- `afterTagAdded`
unfoldable pub after_tag_added : Columns.Colours → Tag → Tag
after_tag_added tab_couleur tag = record tag {
  background_color = some (b'#' ∷ spelled (Columns.colour_of tag.text_content tab_couleur));
}

-- The library calls `afterTagAdded` for each tag of the lists.
unfoldable pub styletags : Columns.Colours → List Tag → List Tag
unfolding after_tag_added
styletags tab_couleur tags = map (after_tag_added tab_couleur) tags

-- The table as it is shown: its columns, the outer widths of the cells of its head, the sizes of
-- the cells of its body, its tags, the colours that are noted, the lines on the console, and what
-- `updateColonnesOptions` has sent, the latest first.
pub record View : Type 0 where
  pub columns : List Columns.Shown
  pub outer_widths : List ℕ
  pub cells : List (List CellSize)
  pub tags : List Tag
  tab_couleur : Columns.Colours
  console : List Line
  pub sent : List (List (Text × Text))
  -- the link `a.toggle-vis` that is clicked
  link : Element

unfoldable pub style_view : View → View
style_view v = record v { tags = styletags v.tab_couleur v.tags }

unfoldable pub ajust_view : View → View
ajust_view v = record v { cells = ajustcolumnsize v.outer_widths v.cells }

-- `draw.dt`
unfoldable pub table_drawn : View → View
table_drawn v = style_view (ajust_view v)

-- `fnReorderCallback`
unfoldable pub columns_reordered : View → View
columns_reordered v = style_view (record v { console = info "reorder" ∷ v.console })

-- `order.dt`
unfoldable pub table_ordered : View → View
table_ordered v = style_view v

-- `column.visible(!column.visible())` for the column of a name.
unfoldable pub flip_column : Text → List Columns.Shown → List Columns.Shown
flip_column name [] = []
flip_column name (c ∷ cs) =
    (if same c.name name then record c { b_visible = if c.b_visible then false else true } else c)
    ∷ flip_column name cs

-- A click on `a.toggle-vis`. When a column is shown or hidden, the head has other cells: their outer
-- widths are what the browser makes of the columns, and so is `width`.
unfoldable pub toggle_vis : (List Columns.Shown → List ℕ) → (Text → Text) → Text → View → View
toggle_vis layout width name v =
    let columns = flip_column name v.columns in
    let w = style_view (
      ajust_view (record v {
        columns = columns;
        outer_widths = layout columns;
        link = toggle_class "selected" v.link;
      })) in
    record w { sent = Columns.update_colonnes_options width w.columns ∷ w.sent }
