-- ===== src/Server/Options.antt =====
-- What the server keeps of the columns of a user's table: `optionsColonnes` of
-- controller/OptionsColonnesServlet.java. An option is a name with its value; that of another user is
-- apart.
mod Tests
use cidemis.Base.{
  ℕ, ◌≡◌, refl, sym, ap, ◌∙◌, Bool, true, false, Option, some, List, [], ◌∷◌, map, Text, same,
  get_elem?, if◌then◌else◌, arith, Bool-cases, inl, inr,
}
use cidemis.Base.Strings.Laws.{same_refl, same→eq, same_comm}
use cidemis.Columns.{Shown, column_option, update_colonnes_options}
use cidemis.Columns.Order.{DistinctNames, property, update_colonnes_options-get_elem}
use cidemis.Server.Workflow.{member_text}
use cidemis.Server.Listing.Page.{trim_spaces, get_parameter}

-- The inner loop: each option of the page under the name gives its value.
abbrev put_value : List (Text × Text) → Text × Text → Text × Text
put_value [] o = o
put_value ((name, value) ∷ os) o = put_value os (if same o.0 name then (o.0, value) else o)

module _ (parameter : Text → Text) where
  -- The options that the page sends, for the columns of `Constant.getColonnes`.
  abbrev sent_options : List Text → List (Text × Text)
  sent_options [] = []
  sent_options (name ∷ names) = (name, parameter name) ∷ sent_options names

  unfoldable pub options_colonnes : List Text → List (Text × Text) → List (Text × Text)
  options_colonnes columns user = map (put_value (sent_options columns)) user

  put_value-name :
      (columns : List Text) (o : Text × Text) → (put_value (sent_options columns) o).0 ≡ o.0
  put_value-name [] o = refl
  put_value-name (n ∷ columns) o = elim (Bool-cases (same o.0 n)) [
    | inl h ↦ rw (put_value, h) (put_value-name columns (o.0, parameter n))
    | inr h ↦ rw (put_value, h) (put_value-name columns o)
  ]

  put_value-kept :
      (columns : List Text) (name : Text)
      → put_value (sent_options columns) (name, parameter name) ≡ (name, parameter name)
  put_value-kept [] name = refl
  put_value-kept (n ∷ columns) name = elim (Bool-cases (same name n)) [
    | inl h ↦ rw (put_value, h, sym (same→eq name n h)) (put_value-kept columns name)
    | inr h ↦ rw (put_value, h) (put_value-kept columns name)
  ]

  put_value-sent :
      (columns : List Text) (name value : Text)
      → member_text name columns ≡ true
      → put_value (sent_options columns) (name, value) ≡ (name, parameter name)
  put_value-sent [] name value m = cc
  put_value-sent (n ∷ columns) name value m = elim (Bool-cases (same name n)) [
    | inl h ↦ rw (put_value, h, sym (same→eq name n h)) (put_value-kept columns name)
    | inr h ↦
        rw (put_value, h) (put_value-sent columns name value (ground (arith, same_comm name n)))
  ]

  options_colonnes-property :
      (columns : List Text) (user : List (Text × Text)) (name value : Text)
      → member_text name columns ≡ true
      → property name user ≡ some value
      → property name (options_colonnes columns user) ≡ some (parameter name)
  unfolding options_colonnes
  options_colonnes-property columns [] name value m has = cc
  options_colonnes-property columns ((n, v) ∷ user) name value m has =
      elim (Bool-cases (same n name)) [
        | inl h ↦
            ap (λ o. property name (o ∷ options_colonnes columns user))
              (put_value-sent columns n v (rw (same→eq n name h) m))
            ∙ first n h
        | inr h ↦
            later (put_value (sent_options columns) (n, v)) (put_value-name columns (n, v)) h
              (options_colonnes-property columns user name value m (passed h has))
      ]
    where
      first :
          (n : Text)
          → same n name ≡ true
          → property name ((n, parameter n) ∷ options_colonnes columns user) ≡ some (parameter name)
      first n h = rw h (ap (λ t. some (parameter t)) (same→eq n name h))

      passed :
          same n name ≡ false
          → property name ((n, v) ∷ user) ≡ some value
          → property name user ≡ some value
      passed h e = sym (rw h refl) ∙ e

      later :
          (o : Text × Text)
          → o.0 ≡ n
          → same n name ≡ false
          → property name (options_colonnes columns user) ≡ some (parameter name)
          → property name (o ∷ options_colonnes columns user) ≡ some (parameter name)
      later (n', w) e h r = rw (e, h) r

-- Where the columns have different names, and the fields arrive as the page posts them, the
-- server keeps for each of the page's columns that it knows and that the user has an option for
-- the text that the page made of it, with its place among the columns, without white space around
-- it.
pub options_colonnes-update :
    (width : Text → Text) (cs : List Shown) (i : ℕ) (c : Shown) (columns : List Text)
    (user : List (Text × Text)) (value : Text)
    → DistinctNames cs
    → get_elem? cs i ≡ some c
    → member_text c.name columns ≡ true
    → property c.name user ≡ some value
    → property c.name (
        options_colonnes
          (λ name. get_parameter (property name (update_colonnes_options width cs)))
          columns
          user)
      ≡ some (trim_spaces (column_option width i c))
unfolding get_parameter
options_colonnes-update width cs i c columns user value names place m has =
    options_colonnes-property
      (λ name. get_parameter (property name (update_colonnes_options width cs))) columns user c.name
      value m has
    ∙ ap (λ o. some (get_parameter o)) (update_colonnes_options-get_elem width cs i c names place)
