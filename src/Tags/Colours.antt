-- ===== src/Tags/Colours.antt =====
-- Which colours the tags of the table have.
use cidemis.Base.{
  ◌≡◌, refl, sym, ◌∙◌, ap, ap₂, Bool, true, false, if◌then◌else◌, Option, none, some, List, [], ◌∷◌,
  ◌++◌, Text, same, map, All,
}
use cidemis.Base.Strings.Laws.{same_refl}
use cidemis.Columns.{
  Taggue, Row, Colours, note_colours, is_special, put_colour, colour_of, render_some,
  render_taggues,
}
use cidemis.Tags.{Tag, after_tag_added, styletags}

-- The rows are drawn one after the other.
abbrev pub draw_rows : List Row → Colours → Colours
draw_rows [] colours = colours
draw_rows (r ∷ rs) colours = draw_rows rs (render_taggues r colours).1

abbrev row_taggues : Option Text → List Taggue → List Taggue
row_taggues none ts = []
row_taggues (some _) ts = ts

-- The tags in the cells of the rows.
abbrev pub drawn : List Row → List Taggue
drawn [] = []
drawn (r ∷ rs) = row_taggues r.id_demande r.taggues ++ drawn rs

abbrev pub plain : Taggue → Tag
plain t = record { text_content = t.libelle; background_color = none }

abbrev pub coloured : Taggue → Tag
coloured t = record { text_content = t.libelle; background_color = some (b'#' ∷ t.couleur) }

-- No two tags of one name have different colours.
abbrev pub OneColour : List Taggue → Type 0
OneColour ts =
    All
      (λ (t : Taggue).
        All (λ (u : Taggue). same u.libelle t.libelle ≡ true → u.couleur ≡ t.couleur) ts)
      ts

-- No tag is named like a property that the array treats in its own way.
abbrev pub ArePlain : List Taggue → Type 0
ArePlain = All (λ (t : Taggue). is_special t.libelle ≡ false)

note_colours-append :
    (ts us : List Taggue) (colours : Colours)
    → note_colours (ts ++ us) colours ≡ note_colours us (note_colours ts colours)
unfolding note_colours
note_colours-append [] us colours = refl
note_colours-append (t ∷ ts) us colours = note_colours-append ts us (put_colour t colours)

noted :
    (id : Option Text) (r : Row) (colours : Colours)
    → (render_some id r colours).1 ≡ note_colours (row_taggues id r.taggues) colours
unfolding note_colours
noted none r colours = refl
noted (some _) r colours = refl

draw_rows-note_colours :
    (rs : List Row) (colours : Colours) → draw_rows rs colours ≡ note_colours (drawn rs) colours
unfolding render_taggues note_colours
draw_rows-note_colours [] colours = refl
draw_rows-note_colours (r ∷ rs) colours =
    draw_rows-note_colours rs (render_taggues r colours).1
    ∙ ap (note_colours (drawn rs)) (noted r.id_demande r colours)
    ∙ sym (note_colours-append (row_taggues r.id_demande r.taggues) (drawn rs) colours)

-- A colour that is noted stays, where the tags that follow agree with it.
colour_of-kept :
    (l c : Text) (ts : List Taggue) (colours : Colours)
    → All (λ (u : Taggue). same u.libelle l ≡ true → u.couleur ≡ c) ts
    → colour_of l colours ≡ some c
    → colour_of l (note_colours ts colours) ≡ some c
unfolding note_colours colour_of
colour_of-kept l c [] colours h e = e
colour_of-kept l c (t ∷ ts) colours (h, hs) e =
    colour_of-kept l c ts (put_colour t colours) hs
      (put (is_special t.libelle) (same t.libelle l) refl)
  where
    put :
        (special same_ : Bool)
        → same t.libelle l ≡ same_
        → colour_of l (if special then colours else (t.libelle, t.couleur) ∷ colours) ≡ some c
    put true same_ is_ = e
    put false true is_ = rw is_ (ap some (h is_))
    put false false is_ = rw is_ e

-- The tags without the first one agree as well.
OneColour-tail :
    (t : Taggue) (us ts : List Taggue)
    → All
        (λ (u : Taggue).
          All (λ (v : Taggue). same v.libelle u.libelle ≡ true → v.couleur ≡ u.couleur) (t ∷ ts))
        us
    → All
        (λ (u : Taggue).
          All (λ (v : Taggue). same v.libelle u.libelle ≡ true → v.couleur ≡ u.couleur) ts)
        us
OneColour-tail t [] ts h = tt
OneColour-tail t (u ∷ us) ts ((_, h), hs) = (h, OneColour-tail t us ts hs)

colour_of-note_colours :
    (ts : List Taggue) (colours : Colours)
    → OneColour ts
    → ArePlain ts
    → All (λ (t : Taggue). colour_of t.libelle (note_colours ts colours) ≡ some t.couleur) ts
unfolding note_colours colour_of
colour_of-note_colours [] colours h k = tt
colour_of-note_colours (t ∷ ts) colours ((own, h), hs) (plain_, k) = (
  colour_of-kept t.libelle t.couleur ts (put_colour t colours) h
      (rw plain_ (rw (same_refl t.libelle) refl)),
  colour_of-note_colours ts (put_colour t colours) (OneColour-tail t ts ts hs) k,
)

styled :
    (ts : List Taggue) (colours : Colours)
    → All (λ (t : Taggue). colour_of t.libelle colours ≡ some t.couleur) ts
    → styletags colours (map plain ts) ≡ map coloured ts
unfolding styletags after_tag_added
styled [] colours h = refl
styled (t ∷ ts) colours (e, h) = ap₂ (λ x xs. x ∷ xs) (rw e refl) (styled ts colours h)

-- After the rows are drawn, `styletags` gives each of their tags the colour of its own, whatever
-- colours were noted before, if no tag is named `length` or `__proto__`, no two tags of the rows
-- with one name have different colours and the text of each tag is its name.
pub styletags-drawn :
    (rs : List Row) (colours : Colours)
    → OneColour (drawn rs)
    → ArePlain (drawn rs)
    → styletags (draw_rows rs colours) (map plain (drawn rs)) ≡ map coloured (drawn rs)
styletags-drawn rs colours h k =
    styled (drawn rs) (draw_rows rs colours)
      (rw (draw_rows-note_colours rs colours) (colour_of-note_colours (drawn rs) colours h k))
