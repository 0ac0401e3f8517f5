-- ===== src/Server/Listing/Checkboxes.antt =====
-- What the two checkboxes choose of the requests that a user may see.
use package.text.Mathlib.Text.{◌==◌ as str_eq}
use cidemis.Base.{
  Bool, true, false, not, ◌&&◌, ◌||◌, List, [], ◌∷◌, map, ◌==◌, ◌≡◌, refl, ap, ◌⊎◌, if◌then◌else◌,
  arith,
}
use cidemis.Server.{
  ok, User, Demande, is_state_in, role_abes, role_catalogueur, role_corcat, role_cieps,
}
use cidemis.Server.Rights.{can_user_modify}
use cidemis.Server.Listing.{
  filter, mark_deleted, abes_query, catalogueur_query, corcat_query, issn_query, cieps_query,
  listed, all_, except_archived, except_achieved, except_achieved_and_archived,
  find_demandes_by_cbs_users,
}

-- The requests that a user of the Sudoc sees: Abes all, a cataloguer his own, a correspondent those
-- of his library's network, but no draft of a cataloguer.
abbrev pub sees : User → Demande → Bool
sees user d =
    if user.role == role_abes
    then true
    else if user.role == role_catalogueur
    then d.user_num == user.user_num
    else str_eq d.iln user.iln && not (d.etat == 22)

-- A request that the checkboxes let through.
abbrev pub let_through : Bool → Bool → Demande → Bool
let_through achieved archived d =
    (achieved || not (d.etat == 36 || (d.etat == 37 || d.etat == 38)))
    && (archived || not (d.etat == 39))

abbrev pub IsOfSudoc : User → Type 0
IsOfSudoc user =
    (user.role ≡ role_abes) ⊎ (user.role ≡ role_catalogueur) ⊎ (user.role ≡ role_corcat)

filter-ext {ℓ} :
    {A : Type ℓ} (p q : A → Bool)
    → ((x : A) → p x ≡ q x)
    → (xs : List A) → filter p xs ≡ filter q xs
filter-ext p q h [] = refl
filter-ext p q h (x ∷ xs) = rw (h x, filter-ext p q h xs) refl

listed-let_through :
    (user : User) (achieved archived : Bool) (d : Demande)
    → IsOfSudoc user
    → listed user achieved archived d ≡ (sees user d && let_through achieved archived d)
unfolding listed all_ except_archived except_achieved except_achieved_and_archived abes_query
    catalogueur_query corcat_query issn_query cieps_query
listed-let_through user true true d role = ground arith
listed-let_through user true false d role = ground arith
listed-let_through user false true d role = ground arith
listed-let_through user false false d role = ground arith

pub find_demandes_by_cbs_users-chosen :
    (user : User) (achieved archived : Bool) (demandes : List Demande)
    → IsOfSudoc user
    → find_demandes_by_cbs_users user achieved archived demandes
      ≡ map mark_deleted (filter (λ d. sees user d && let_through achieved archived d) demandes)
unfolding find_demandes_by_cbs_users
find_demandes_by_cbs_users-chosen user achieved archived demandes role =
    ap (map mark_deleted)
      (filter-ext _ _ (λ d. listed-let_through user achieved archived d role) demandes)

-- A request that is listed stays so when the checkbox of finished requests is ticked, and when
-- that of archived requests is, except for one that was rejected and a user of the international
-- centre, from whom the second checkbox hides it.
pub listed-ticked :
    (user : User) (achieved archived : Bool) (d : Demande)
    → listed user achieved archived d ≡ true
    → (listed user true archived d ≡ true)
      × (listed user achieved true d ≡ not (user.role == role_cieps && d.etat == 38))
unfolding listed all_ except_archived except_achieved except_achieved_and_archived abes_query
    catalogueur_query corcat_query issn_query cieps_query
listed-ticked user true true d h = (h, ground arith)
listed-ticked user true false d h = (h, ground arith)
listed-ticked user false true d h = (ground arith, ground arith)
listed-ticked user false false d h = (ground arith, ground arith)

-- A request that a cataloguer or a correspondent may modify is in his list, whatever the
-- checkboxes say.
pub can_user_modify-listed :
    (user : User) (achieved archived : Bool) (d : Demande)
    → (user.role ≡ role_catalogueur) ⊎ (user.role ≡ role_corcat)
    → can_user_modify user d ≡ ok true
    → listed user achieved archived d ≡ true
unfolding can_user_modify is_state_in listed all_ except_archived except_achieved
    except_achieved_and_archived abes_query catalogueur_query corcat_query issn_query cieps_query
can_user_modify-listed user true true d role h = ground arith
can_user_modify-listed user true false d role h = ground arith
can_user_modify-listed user false true d role h = ground arith
can_user_modify-listed user false false d role h = ground arith
