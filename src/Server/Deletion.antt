-- ===== src/Server/Deletion.antt =====
-- The deletion of a request: `supprimerDemande` of controller/DemandeController.java, with `findDemande`
-- and `delete` of service/impl/DemandesService.java.
use package.text.Mathlib.Text.{◌==◌ as str_eq}
use cidemis.Base.{
  ℕ, String, Bool, true, false, not, ◌&&◌, ◌||◌, Option, none, some, List, [], ◌∷◌, ◌==◌, ◌≡◌, ◌≢◌,
  ◌↔◌, refl, sym, ap, ◌∙◌, if◌then◌else◌, arith, Bool-cases, inl, inr,
}
use cidemis.Server.{
  Result, ok, null_pointer, index_out_of_bounds, ◌>>=◌, User, Notice, Demande, role_catalogueur,
  role_corcat, role_abes, type_demande_numerotation, type_demande_correction,
}
use cidemis.Server.Rights.{can_user_delete}
use cidemis.Server.Creation.{deleted_title}
use cidemis.Server.Listing.{mark_deleted}

-- Whether the Sudoc lets the user in, and whether it lets the note of a request be taken out of a
-- record (it throws an exception otherwise), and whether the database deletes a request; `delete`
-- only logs it when it does not.
pub record Services : Type 0 where
  pub lets_in : Bool
  pub takes_out : String → Demande → Bool
  pub deletes : Demande → Bool

-- The page that is shown: none, or that of an error.
pub data Page : Type 0 where
  no_page error_page : Page

abbrev pub find_demande : ℕ → List Demande → Option Demande
find_demande id [] = none
find_demande id (d ∷ ds) =
    let rest = find_demande id ds in if d.id_demande == id then some (mark_deleted d) else rest

abbrev pub without : ℕ → List Demande → List Demande
without id [] = []
without id (d ∷ ds) = let rest = without id ds in if d.id_demande == id then rest else d ∷ rest

abbrev known_title : Option String → Bool
known_title none = false
known_title (some t) = not (str_eq t deleted_title)

-- A note of the request stands in the record, in a zone by its type.
abbrev pub has_note : User → Demande → Bool
has_note user d =
    known_title d.titre
    && (not (user.role == role_catalogueur)
        && (d.type_demande == type_demande_numerotation
            || d.type_demande == type_demande_correction))

abbrev pub take_out : Services → User → Demande → Result Bool
take_out o user d =
    if has_note user d
    then elim d.notice [ none ↦ null_pointer | some n ↦ ok (o.takes_out n.ppn d) ]
    else ok true

abbrev pub delete : Services → Demande → List Demande → List Demande
delete o d table = if o.deletes d then without d.id_demande table else table

abbrev pub delete_found : Services → User → List Demande → Demande → Result (Page × List Demande)
delete_found o user table d = do
  may ← can_user_delete user d
  (if may
      then (do
        done ← take_out o user d
        ok (if done then (no_page, delete o d table) else (error_page, table)))
      else ok (no_page, table))

-- `canUserDeleteDemande` reads the request, or its title is read.
abbrev pub delete_missing : User → List Demande → Result (Page × List Demande)
delete_missing user table =
    if user.role == role_catalogueur || (user.role == role_abes || user.role == role_corcat)
    then null_pointer
    else ok (no_page, table)

unfoldable pub supprimer_demande : Services → User → ℕ → List Demande → Result (Page × List Demande)
unfolding can_user_delete
supprimer_demande o user id table =
    if o.lets_in
    then elim (find_demande id table) [
      | none ↦ delete_missing user table
      | some d ↦ delete_found o user table d
    ]
    else ok (error_page, table)

-- The table after it; an exception leaves it.
abbrev pub table_after : List Demande → Result (Page × List Demande) → List Demande
table_after table (ok (page, table')) = table'
table_after table null_pointer = table
table_after table index_out_of_bounds = table

some_id :
    (id : ℕ) (table : List Demande) (d : Demande)
    → find_demande id table ≡ some d
    → d.id_demande ≡ id
some_id id [] d e = cc
some_id id (x ∷ xs) d e = ground (arith, some_id id xs d)

find_demande-without : (id : ℕ) (table : List Demande) → find_demande id (without id table) ≡ none
find_demande-without id [] = refl
find_demande-without id (x ∷ xs) = ground (arith, find_demande-without id xs)

find_demande-without_other :
    (id other : ℕ) (table : List Demande)
    → (id == other) ≡ false
    → find_demande other (without id table) ≡ find_demande other table
find_demande-without_other id other [] h = refl
find_demande-without_other id other (x ∷ xs) h =
    ground (arith, find_demande-without_other id other xs h)

abbrev is_true : Result Bool → Bool
is_true (ok b) = b
is_true null_pointer = false
is_true index_out_of_bounds = false

is_true-ok : (r : Result Bool) → (is_true r ≡ true) ↔ (r ≡ ok true)
is_true-ok (ok true) = ground arith
is_true-ok (ok false) = ground arith
is_true-ok null_pointer = ground arith
is_true-ok index_out_of_bounds = ground arith

-- The table after the steps of a deletion, by how each of them ends.
table_after-steps :
    (table gone : List Demande) (l : Bool) (may done : Result Bool) (del : Bool)
    → table_after table (
        if l
        then may >>= (λ m.
          if m
          then done >>= (λ x.
            ok (if x then (no_page, if del then gone else table) else (error_page, table)))
          else ok (no_page, table))
        else ok (error_page, table))
      ≡ (if l && (is_true may && (is_true done && del)) then gone else table)
table_after-steps table gone false may done del = refl
table_after-steps table gone true null_pointer done del = refl
table_after-steps table gone true index_out_of_bounds done del = refl
table_after-steps table gone true (ok false) done del = refl
table_after-steps table gone true (ok true) null_pointer del = refl
table_after-steps table gone true (ok true) index_out_of_bounds del = refl
table_after-steps table gone true (ok true) (ok false) del = refl
table_after-steps table gone true (ok true) (ok true) del = refl

not_true : false ≢ true
not_true e = cc

not_found : {d : Demande} → none ≢ some d
not_found e = cc

all_four :
    (a b c e : Bool)
    → ((a && (b && (c && e))) ≡ true) ↔ ((a ≡ true) × (b ≡ true) × (c ≡ true) × (e ≡ true))
all_four a b c e = ground arith

taken :
    (out : Notice → Bool) (noted : Bool) (notice : Option Notice)
    → (is_true
          (if noted then elim notice [ none ↦ null_pointer | some n ↦ ok (out n) ] else ok true)
        ≡ true)
      ↔ (noted ≡ true → (n : Notice) × (notice ≡ some n) × (out n ≡ true))
taken out false notice = ((λ h e. absurd (not_true e)), (λ h. refl))
taken out true none = ((λ h. absurd (not_true h)), (λ h. let (n, e, t) = h refl in cc))
taken out true (some n) = ((λ h e. (n, refl, h)), (λ h. let (m, e, t) = h refl in cc))

module _ (o : Services) (user : User) where
  -- The Sudoc lets the user in, he may delete the request, its note, where there is one, is taken out
  -- of its record, and the database deletes it.
  abbrev pub IsDeleted : Demande → Type 0
  IsDeleted d =
      (o.lets_in ≡ true)
      × (can_user_delete user d ≡ ok true)
      × (has_note user d ≡ true → (n : Notice) × (d.notice ≡ some n) × (o.takes_out n.ppn d ≡ true))
      × (o.deletes d ≡ true)

  taken_out :
      (d : Demande)
      → (is_true (take_out o user d) ≡ true) ↔ (
          has_note user d ≡ true
          → (n : Notice) × (d.notice ≡ some n) × (o.takes_out n.ppn d ≡ true))
  taken_out d = taken (λ n. o.takes_out n.ppn d) (has_note user d) d.notice

  abbrev deleted : Demande → Bool
  deleted d =
      o.lets_in
      && (is_true (can_user_delete user d) && (is_true (take_out o user d) && o.deletes d))

  deleted_iff : (d : Demande) → (deleted d ≡ true) ↔ IsDeleted d
  deleted_iff d =
      let (to, from) =
        all_four o.lets_in (is_true (can_user_delete user d)) (is_true (take_out o user d))
          (o.deletes d) in
      let (may_to, may_from) = is_true-ok (can_user_delete user d) in
      let (out_to, out_from) = taken_out d in
      (
        (λ h. let (l, m, t, del) = to h in (l, may_to m, out_to t, del)),
        (λ h. from (h.0, may_from h.1, out_from h.2, h.3)),
      )

  table_after-supprimer_demande :
      (table : List Demande) (id : ℕ) (d : Demande)
      → find_demande id table ≡ some d
      → table_after table (supprimer_demande o user id table)
        ≡ (if deleted d then without id table else table)
  unfolding supprimer_demande
  table_after-supprimer_demande table id d is =
      rw is (
        table_after-steps table (without d.id_demande table) o.lets_in (can_user_delete user d)
          (take_out o user d) (o.deletes d))
      ∙ ap (λ i. if deleted d then without i table else table) (some_id id table d is)

  pub supprimer_demande-IsDeleted :
      (table : List Demande) (id : ℕ) (d : Demande)
      → find_demande id table ≡ some d
      → let table' = table_after table (supprimer_demande o user id table) in
        ((find_demande id table' ≡ none) ↔ IsDeleted d)
        × ((other : ℕ)
            → (id == other) ≡ false
            → find_demande other table' ≡ find_demande other table)
  supprimer_demande-IsDeleted table id d is = elim (Bool-cases (deleted d)) [
    | inl h ↦
        rw (table_after-supprimer_demande table id d is, h)
          (
            ((λ e. (deleted_iff d).0 h), (λ e. find_demande-without id table)),
            (λ other ne. find_demande-without_other id other table ne),
          )
    | inr h ↦
        rw (table_after-supprimer_demande table id d is, h)
          (
            (
              (λ e. absurd (not_found (sym e ∙ is))),
              (λ e. absurd (not_true (sym h ∙ (deleted_iff d).1 e))),
            ),
            (λ other ne. refl),
          )
  ]
