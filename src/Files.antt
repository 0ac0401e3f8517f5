-- ===== src/Files.antt =====
-- The files of a request's form: `ajoutfichier`, `supprimerfichier`, `supprimerfichierup` and
-- `supprimerpremierfichier` (scripts.js), on the fields of the page creation-demande.jsp.
pub mod Counts
pub mod Steps
mod Tests
use cidemis.Base.{
  ℕ, zero, suc, ◌+◌, ◌<◌, String, Bool, true, false, Option, none, some, List, [], ◌∷◌, ◌++◌, map,
  length, ◌==◌, if◌then◌else◌,
}

-- The field `#file<number>` in its `#divfile<number>`, and the file that is chosen in it.
pub record FileField : Type 0 where
  pub number : ℕ
  pub chosen : Option String

pub record Files : Type 0 where
  pub filecount : ℕ
  -- `#files .file`
  pub fields : List FileField
  -- the files that the server has, shown in `#fileup<id>`
  pub uploaded : List ℕ
  -- the hidden fields in `#filestodelete`
  pub filestodelete : List ℕ

-- The form as the page opens with it: one empty field, and the files on record.
abbrev pub opened : ℕ → List ℕ → Files
opened filecount uploaded = record {
  filecount = filecount;
  fields = record { number = 0; chosen = none } ∷ [];
  uploaded = uploaded;
  filestodelete = [];
}

unfoldable pub ajoutfichier : Files → Files
ajoutfichier s = record s {
  filecount = suc s.filecount;
  fields = s.fields ++ record { number = suc s.filecount; chosen = none } ∷ [];
}

unfoldable pub put_file : ℕ → Option String → FileField → FileField
put_file n file f = if f.number == n then record f { chosen = file } else f

-- The user chooses a file in a field.
unfoldable pub choose : ℕ → Option String → Files → Files
choose n file s = record s { fields = map (put_file n file) s.fields }

unfoldable pub remove_field : ℕ → List FileField → List FileField
remove_field n [] = []
remove_field n (f ∷ fs) = let rest = remove_field n fs in if f.number == n then fs else f ∷ rest

-- The button of `#divfile<n>`: the only field is emptied, another one is taken away.
unfoldable pub supprimerfichier : ℕ → Files → Files
unfolding choose put_file remove_field
supprimerfichier n s =
    if length s.fields == 1 then choose n none s else record s { fields = remove_field n s.fields }

-- `#file0` is replaced by an empty field.
unfoldable pub supprimerpremierfichier : Files → Files
unfolding choose put_file
supprimerpremierfichier s = choose 0 none s

unfoldable pub remove_id : ℕ → List ℕ → List ℕ
remove_id n [] = []
remove_id n (m ∷ ms) = let rest = remove_id n ms in if m == n then ms else m ∷ rest

-- The button of a file on record, whose user was asked and answered `sure`.
unfoldable pub supprimerfichierup : Bool → ℕ → Files → Files
unfolding remove_id
supprimerfichierup sure id s =
    if sure
    then record s { filestodelete = s.filestodelete ++ id ∷ []; uploaded = remove_id id s.uploaded }
    else s
