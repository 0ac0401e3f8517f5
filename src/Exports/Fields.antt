-- ===== src/Exports/Fields.antt =====
-- The fields of an export.
use cidemis.Base.{
  ℕ, String, ◌≡◌, ◌≢◌, refl, sym, ap, ◌∙◌, Bool, true, false, Option, none, some, List, [], ◌∷◌,
  ◌++◌, Text, codes, split, map, All, All-append, arith,
}
use cidemis.Base.Strings.Split.{Lacks, split_from-append, split_from_sep, split_from-end}
use cidemis.Browser.{Element, World, val, on, hide}
use cidemis.Browser.Laws.{on-SameInputs, hide-KeepsInputs}
use cidemis.Exports.{
  Numbers, array_id, export_demandes, join, bool_text, export_data, pair_of, hidden_fields,
  Download, download, export_ids,
}

-- A part before a separator, and the last part.
split-part :
    (c : ℕ) (p rest : Text) → Lacks c p → split (c ∷ []) (p ++ c ∷ rest) ≡ p ∷ split (c ∷ []) rest
unfolding split
split-part c p rest h = split_from-append c [] p (c ∷ rest) [] h ∙ split_from_sep c rest p

split-end : (c : ℕ) (p : Text) → Lacks c p → split (c ∷ []) p ≡ p ∷ []
unfolding split
split-end c p h = split_from-end c [] p [] h

pair_of-split :
    (n v : Text)
    → Lacks b'=' n
    → Lacks b'=' v
    → pair_of (split (b'=' ∷ []) (n ++ b'=' ∷ v)) ≡ (n, some v)
pair_of-split n v h k = ap pair_of (split-part b'=' n v h ∙ ap (λ ps. n ∷ ps) (split-end b'=' v k))

-- A number of a request is a text without & and =.
abbrev pub IsNumber : Text → Type 0
IsNumber a = Lacks b'&' a × Lacks b'=' a

join-Lacks : (c : ℕ) (ids : List Text) → c ≢ b',' → All (Lacks c) ids → Lacks c (join ids)
unfolding join
join-Lacks c [] n h = tt
join-Lacks c (a ∷ []) n (h, _) = h
join-Lacks c (a ∷ b ∷ as') n (h, hs) =
    let rest : Lacks c (b',' ∷ join (b ∷ as')) = (λ e. n (sym e), join-Lacks c (b ∷ as') n hs) in
    All-append (λ d. d ≢ c) a (b',' ∷ join (b ∷ as')) h rest

each-Lacks : (ids : List Text) → All IsNumber ids → All (Lacks b'&') ids × All (Lacks b'=') ids
each-Lacks [] h = (tt, tt)
each-Lacks (a ∷ as') ((p, q), h) = let (ps, qs) = each-Lacks as' h in ((p, ps), (q, qs))

join-IsNumber : (ids : List Text) → All IsNumber ids → IsNumber (join ids)
join-IsNumber ids h =
    let (ps, qs) = each-Lacks ids h in
    (join-Lacks b'&' ids (omega arith) ps, join-Lacks b'=' ids (omega arith) qs)

-- A field, whose name and value have no & and =, is read as it was written.
module _ (n v : Text) (h : IsNumber n) (k : IsNumber v) where
  field-Lacks : Lacks b'&' (n ++ b'=' ∷ v)
  field-Lacks =
      let rest : Lacks b'&' (b'=' ∷ v) = (omega arith, k.0) in
      All-append (λ d. d ≢ b'&') n (b'=' ∷ v) h.0 rest

  hidden_fields-part :
      (rest : Text)
      → hidden_fields ((n ++ b'=' ∷ v) ++ b'&' ∷ rest) ≡ (n, some v) ∷ hidden_fields rest
  unfolding hidden_fields
  hidden_fields-part rest =
      ap (map (λ part. pair_of (split (b'=' ∷ []) part)))
        (split-part b'&' (n ++ b'=' ∷ v) rest field-Lacks)
      ∙ ap (λ f. f ∷ hidden_fields rest) (pair_of-split n v h.1 k.1)

  hidden_fields-end : hidden_fields (n ++ b'=' ∷ v) ≡ (n, some v) ∷ []
  unfolding hidden_fields
  hidden_fields-end =
      ap (map (λ part. pair_of (split (b'=' ∷ []) part)))
        (split-end b'&' (n ++ b'=' ∷ v) field-Lacks)
      ∙ ap (λ f. f ∷ []) (pair_of-split n v h.1 k.1)

export_data-fields :
    (a b : Bool) (ids : List Text)
    → export_data a b ids
      ≡ (codes "allcolumns" ++ b'=' ∷ bool_text a)
        ++ b'&'
          ∷ ((codes "includecomments" ++ b'=' ∷ bool_text b)
              ++ b'&' ∷ (codes "id" ++ b'=' ∷ join ids))
unfolding export_data codes
export_data-fields true true ids = refl
export_data-fields true false ids = refl
export_data-fields false true ids = refl
export_data-fields false false ids = refl

bool_text-IsNumber : (a : Bool) → IsNumber (bool_text a)
unfolding codes
bool_text-IsNumber true = omega arith
bool_text-IsNumber false = omega arith

names-IsNumber :
    IsNumber (codes "allcolumns") × IsNumber (codes "includecomments") × IsNumber (codes "id")
unfolding codes
names-IsNumber = omega arith

export-fields :
    (a b : Bool) (ids : List Text)
    → All IsNumber ids
    → hidden_fields (export_data a b ids)
      ≡ (codes "allcolumns", some (bool_text a))
        ∷ ((codes "includecomments", some (bool_text b)) ∷ ((codes "id", some (join ids)) ∷ []))
export-fields a b ids h =
    ap hidden_fields (export_data-fields a b ids)
    ∙ hidden_fields-part (codes "allcolumns") (bool_text a) names-IsNumber.0 (bool_text-IsNumber a)
        _
    ∙ ap (λ fs. (codes "allcolumns", some (bool_text a)) ∷ fs)
        (hidden_fields-part (codes "includecomments") (bool_text b) names-IsNumber.1
            (bool_text-IsNumber b) _
          ∙ ap (λ fs. (codes "includecomments", some (bool_text b)) ∷ fs)
              (hidden_fields-end (codes "id") (join ids) names-IsNumber.2 (join-IsNumber ids h)))

-- The export that is meant by two flags and the numbers of some requests.
abbrev pub export_of : Bool → Bool → List Text → Option Download
export_of a b [] = none
export_of a b (i ∷ is_) = some (record {
  url = "exportdemande";
  inputs =
      (codes "allcolumns", some (bool_text a))
      ∷ ((codes "includecomments", some (bool_text b))
          ∷ ((codes "id", some (join (i ∷ is_))) ∷ []));
})

abbrev no_request : List Text → List String
no_request [] = "Aucune demande n'est sélectionnée !" ∷ []
no_request (i ∷ is_) = []

download-some :
    (a b : Bool) (ids : List Text)
    → download "exportdemande" (export_data a b ids)
      ≡ some (record { url = "exportdemande"; inputs = hidden_fields (export_data a b ids) })
unfolding download export_data codes
download-some a b ids = refl

export_ids-fields :
    (a b : Bool) (ids : List Text) (w : World)
    → All IsNumber ids
    → ((export_ids ids a b w).1 ≡ export_of a b ids)
      × ((export_ids ids a b w).0.dialogs ≡ no_request ids ++ w.dialogs)
unfolding export_ids
export_ids-fields a b [] w h = (refl, refl)
export_ids-fields a b (i ∷ is_) w h = (
  download-some a b (i ∷ is_)
      ∙ ap (λ fs. some (record { url = "exportdemande"; inputs = fs }))
          (export-fields a b (i ∷ is_) h),
  refl,
)

on-dialogs : (sel : String) (f : Element → Element) (w : World) → (on sel f w).dialogs ≡ w.dialogs
unfolding on
on-dialogs sel f w = refl

-- An export sends a form with three fields (the two flags and the numbers of the requests that
-- the popup's choice means, joined by commas), where these numbers are texts without & and =; if
-- there is no such request, nothing is sent and the user is told so.
pub export_demandes-fields :
    (t : Numbers) (a b : Bool) (w : World)
    → let ids = array_id (val w ".popupdiv .exporttype") t in
      All IsNumber ids
      → ((export_demandes t a b w).1 ≡ export_of a b ids)
        × ((export_demandes t a b w).0.dialogs ≡ no_request ids ++ w.dialogs)
unfolding export_demandes
export_demandes-fields t a b w h =
    let same_choice : val (on "#popup" hide w) ".popupdiv .exporttype"
        ≡ val w ".popupdiv .exporttype" =
      (on-SameInputs "#popup" hide w hide-KeepsInputs).same_val ".popupdiv .exporttype" in
    let ids = array_id (val w ".popupdiv .exporttype") t in
    let (sent, told) = export_ids-fields a b ids (on "#popup" hide w) h in
    rw same_choice (sent, told ∙ ap (λ d. no_request ids ++ d) (on-dialogs "#popup" hide w))
