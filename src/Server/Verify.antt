-- ===== src/Server/Verify.antt =====
-- The server's answers to the form's questions about a PPN: `processRequest` and `checkPPN` of
-- controller/VerifPPN.java, and `verifierNotice` of controller/VerifNotice.java.
pub mod Answers
mod Tests
use package.text.Mathlib.Text.{◌==◌ as str_eq}
use cidemis.Base.{
  ℕ, String, Bool, true, false, not, ◌&&◌, ◌||◌, Option, none, some, List, [], ◌∷◌, Text, codes,
  length, suc, ◌==◌, if◌then◌else◌,
}
use cidemis.Issn.{is_digit}
use cidemis.Browser.{Post, Reply, success, Body}
use cidemis.Server.{
  Notice, Demande, type_demande_numerotation, etat_traitement_termine_refusee,
  etat_traitement_rejetee_par_corcat, etat_archivee,
}
use cidemis.Server.Listing.Page.{get_parameter}

-- `getCentreISSN() != null && !getCentreISSN().isEmpty()`
abbrev pub has_centre : Option String → Bool
has_centre none = false
has_centre (some c) = not (str_eq c "")

abbrev is_line_end : ℕ → Bool
is_line_end c = c == 10 || (c == 13 || (c == 133 || (c == 8232 || c == 8233)))

-- `.(s|i|d)`
abbrev pub is_serial : Text → Bool
is_serial (a ∷ b ∷ []) = not (is_line_end a) && (b == b's' || (b == b'i' || b == b'd'))
is_serial _ = false

abbrev pub of_ppn : String → Demande → Bool
of_ppn ppn d = elim d.notice [ none ↦ false | some n ↦ str_eq n.ppn ppn ]

abbrev pub is_pending : Demande → Bool
is_pending d =
    d.type_demande == type_demande_numerotation
    && not (
        d.etat == etat_traitement_termine_refusee
        || (d.etat == etat_traitement_rejetee_par_corcat || d.etat == etat_archivee))

-- The loop over `findDemandesByPPN`.
abbrev pub find_pending : String → List Demande → Bool
find_pending ppn [] = false
find_pending ppn (d ∷ ds) =
    let rest = find_pending ppn ds in if of_ppn ppn d && is_pending d then true else rest

unfoldable pub ppn_verdict : List Demande → Notice → String
ppn_verdict demandes n =
    if has_centre n.centre_issn
    then "ISSN_EXISTANT"
    else if not (is_serial n.type_document)
    then "MONOGRAPHIE"
    else if find_pending n.ppn demandes
    then "DEMANDE_EXISTANTE"
    else "OK"

-- `find` is `findCidemisNotice`, which asks the database of the Sudoc.
unfoldable pub verif_ppn : (Text → Option Notice) → List Demande → Text → String
unfolding ppn_verdict
verif_ppn find demandes ppn = elim (find ppn) [
  | none ↦ "AUCUNE_NOTICE"
  | some n ↦ if str_eq n.ppn "" then "AUCUNE_NOTICE" else ppn_verdict demandes n
]

-- `(\d{9})|((?i)\d{8}X{1})`, of the nine characters
abbrev is_ppn_from : ℕ → Text → Bool
is_ppn_from k [] = false
is_ppn_from k (c ∷ []) = k == 8 && (is_digit c || (c == b'X' || c == b'x'))
is_ppn_from k (c ∷ d ∷ t) = let rest = is_ppn_from (suc k) (d ∷ t) in is_digit c && rest

unfoldable pub is_ppn : Text → Bool
is_ppn t = length t == 9 && is_ppn_from 0 t

-- `can_modify` is `canModifyNotice` of the Sudoc's library, which throws for a record that may not be
-- changed.
unfoldable pub verif_notice : (Text → Bool) → Text → String
unfolding is_ppn
verif_notice can_modify ppn = if is_ppn ppn then (if can_modify ppn then "OK" else "NOK") else ""

abbrev pub sent : Option String → Text
sent none = get_parameter none
sent (some s) = get_parameter (some (codes s))

abbrev pub param : String → List (String × Option String) → Option String
param name [] = none
param name ((n, v) ∷ ps) = if str_eq n name then v else param name ps

-- The two addresses; `rest` answers at the others.
unfoldable pub routes :
    (Text → Option Notice) → (Text → Bool) → List Demande → (Post → Reply) → Post → Reply
unfolding verif_ppn verif_notice
routes find can_modify demandes rest p =
    if str_eq p.url "verifier-ppn"
    then success (Body.text (verif_ppn find demandes (sent (param "ppn" p.params))))
    else if str_eq p.url "verifier-notice"
    then success (Body.text (verif_notice can_modify (sent (param "ppn" p.params))))
    else rest p
