-- ===== src/Tags/Tests.antt =====
-- Tags of concrete rows.
use cidemis.Base.{◌≡◌, refl, true, none, some, [], ◌∷◌, List, map, same, codes}
use cidemis.Columns.{Row}
use cidemis.Tags.{taggues, error, end_source, styletags}
use cidemis.Tags.Colours.{drawn, draw_rows, OneColour, ArePlain, plain, coloured, styletags-drawn}
use cidemis.Samples.{page}

abbrev two_rows : List Row
two_rows =
    record {
      id_demande = some (b'1' ∷ []);
      taggues =
          record { libelle = b'a' ∷ []; couleur = b'F' ∷ [] }
          ∷ record { libelle = b'b' ∷ []; couleur = b'0' ∷ [] }
          ∷ [];
      commentaires_nb = 0;
      pieces_justificatives_nb = 0;
      can_delete = true;
      can_archive = true;
    }
    ∷ record {
      id_demande = some (b'2' ∷ []);
      taggues = record { libelle = b'a' ∷ []; couleur = b'F' ∷ [] } ∷ [];
      commentaires_nb = 0;
      pieces_justificatives_nb = 0;
      can_delete = true;
      can_archive = true;
    }
    ∷ []

two_rows-OneColour : OneColour (drawn two_rows)
unfolding same
two_rows-OneColour = (
  (λ e. refl, (λ e. cc, (λ e. refl, tt))),
  ((λ e. cc, (λ e. refl, (λ e. cc, tt))), ((λ e. refl, (λ e. cc, (λ e. refl, tt))), tt)),
)

two_rows-ArePlain : ArePlain (drawn two_rows)
unfolding same codes
two_rows-ArePlain = (refl, (refl, (refl, tt)))

styletags-drawn_example :
    styletags (draw_rows two_rows []) (map plain (drawn two_rows)) ≡ map coloured (drawn two_rows)
styletags-drawn_example = styletags-drawn two_rows [] two_rows-OneColour two_rows-ArePlain

-- The texts that the server knows are proposed.
proposals :
    (end_source (taggues ("presse" ∷ "presse locale" ∷ [])) (page [])).0
    ≡ some (
        record { label = "presse"; value = "presse" }
        ∷ record { label = "presse locale"; value = "presse locale" }
        ∷ [])
unfolding end_source
proposals = refl

-- An error of the server is shown, and nothing is proposed.
no_proposals : (end_source (error "Not Found") (page [])).0 ≡ none
unfolding end_source
no_proposals = refl
