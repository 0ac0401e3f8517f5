-- ===== src/Server.antt =====
-- The server: what it keeps of a request (`Demandes`), its constants, and exceptions as values (Java,
-- in core/src/main/java/fr/abes/cidemis and web/src/main/java/fr/abes/cidemis). The database, the
-- library for the Sudoc and the mails are outside; what they answer is given.
pub mod Rights
pub mod Workflow
pub mod Journal
pub mod Creation
pub mod Steps
pub mod Completion
pub mod History
pub mod Redirection
pub mod Samples
pub mod Listing
pub mod Verify
pub mod Options
pub mod Deletion
mod Tests
use package.text.Mathlib.Text.{◌==◌ as str_eq}
use cidemis.Base.{
  ℕ, String, Bool, true, false, ◌||◌, Option, none, some, List, [], ◌∷◌, Text, ◌==◌, ◌≡◌, refl,
  if◌then◌else◌,
}

-- What a Java method ends with.
pub data Result {ℓ} (A : Type ℓ) : Type ℓ where
  ok : A → Result A
  null_pointer index_out_of_bounds : Result A

infixl 5 ◌>>=◌
abbrev pub ◌>>=◌ {ℓ κ} : {A : Type ℓ} {B : Type κ} → Result A → (A → Result B) → Result B
ok a >>= f = f a
null_pointer >>= f = null_pointer
index_out_of_bounds >>= f = index_out_of_bounds

-- A call of a method of something that may be `null`.
abbrev pub non_null {ℓ} : {A : Type ℓ} → Option A → Result A
non_null none = null_pointer
non_null (some a) = ok a

-- What a chain that ends well went through.
pub >>=-ok {ℓ κ} :
    {A : Type ℓ} {B : Type κ} (r : Result A) (f : A → Result B) {b : B}
    → (r >>= f) ≡ ok b
    → (a : A) × (r ≡ ok a) × (f a ≡ ok b)
>>=-ok (ok a) f e = (a, refl, e)
>>=-ok null_pointer f e = cc
>>=-ok index_out_of_bounds f e = cc

pub ok-injective {ℓ} : {A : Type ℓ} {a b : A} → Result.ok a ≡ ok b → a ≡ b
ok-injective e = cc

pub non_null-ok {ℓ} : {A : Type ℓ} (o : Option A) {a : A} → non_null o ≡ ok a → o ≡ some a
non_null-ok none e = cc
non_null-ok (some b) e = cc

-- `Constant`: the types of requests.
abbrev pub type_demande_numerotation : ℕ
type_demande_numerotation = 22

abbrev pub type_demande_correction : ℕ
type_demande_correction = 23

abbrev pub type_demande_creation : ℕ
type_demande_creation = 24

-- Their states.
abbrev pub etat_en_attente_validation_catalogueur : ℕ
etat_en_attente_validation_catalogueur = 22

abbrev pub etat_en_attente_validation_responsable_cr : ℕ
etat_en_attente_validation_responsable_cr = 23

abbrev pub etat_validee_par_catalogueur : ℕ
etat_validee_par_catalogueur = 24

abbrev pub etat_validee_par_corcat : ℕ
etat_validee_par_corcat = 25

abbrev pub etat_validee_par_corcat_vers_international : ℕ
etat_validee_par_corcat_vers_international = 26

abbrev pub etat_en_attente_precision_catalogueur : ℕ
etat_en_attente_precision_catalogueur = 27

abbrev pub etat_en_attente_precision_corcat : ℕ
etat_en_attente_precision_corcat = 28

abbrev pub etat_vers_international : ℕ
etat_vers_international = 33

abbrev pub etat_precision_par_catalogueur : ℕ
etat_precision_par_catalogueur = 34

abbrev pub etat_precision_par_corcat : ℕ
etat_precision_par_corcat = 35

abbrev pub etat_traitement_termine_refusee : ℕ
etat_traitement_termine_refusee = 36

abbrev pub etat_traitement_termine_acceptee : ℕ
etat_traitement_termine_acceptee = 37

abbrev pub etat_traitement_rejetee_par_corcat : ℕ
etat_traitement_rejetee_par_corcat = 38

abbrev pub etat_archivee : ℕ
etat_archivee = 39

-- The roles of users.
abbrev pub role_catalogueur : ℕ
role_catalogueur = 1

abbrev pub role_corcat : ℕ
role_corcat = 2

abbrev pub role_abes : ℕ
role_abes = 3

abbrev pub role_issn : ℕ
role_issn = 4

abbrev pub role_cieps : ℕ
role_cieps = 5

abbrev pub admin_issn : String
admin_issn = "351IS001"

abbrev pub profil_pas_profil : ℕ
profil_pas_profil = 0

-- A user, by the parts that decide what he may do.
pub record User : Type 0 where
  pub user_num : ℕ
  pub user_key : String
  pub role : ℕ
  pub iln : String
  -- `none` is `null`
  pub id_profil : Option ℕ

-- A record of the Sudoc.
pub record Notice : Type 0 where
  pub ppn : String
  pub pays : Text
  pub idprofil : ℕ
  pub type_document : Text
  pub centre_issn : Option String
  pub statut_notice : String
  pub titre : String

-- A request. A state of its journal is the state that the request came into; the latest is first.
-- A state that is `null` yet is 0, which no state's number is.
pub record Demande : Type 0 where
  pub id_demande : ℕ
  pub type_demande : ℕ
  pub etat : ℕ
  pub user_num : ℕ
  pub iln : String
  pub id_profil : Option ℕ
  pub notice : Option Notice
  pub centre_issn : Option String
  pub titre : Option String
  pub journal : List ℕ

abbrev pub contains : ℕ → List ℕ → Bool
contains n [] = false
contains n (m ∷ ms) = m == n || contains n ms

-- `isStateIn`
unfoldable pub is_state_in : List ℕ → Demande → Bool
is_state_in states d = contains d.etat states

-- A test of a state that is `null` fails.
abbrev pub read_etat {ℓ} : {A : Type ℓ} → Demande → Result A → Result A
read_etat d r = if d.etat == 0 then null_pointer else r
