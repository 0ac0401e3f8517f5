-- ===== src/Files/Steps.antt =====
-- What any sequence of clicks makes of the files of a form.
use cidemis.Base.{
  ℕ, suc, ◌+◌, ◌<◌, ◌≤◌, ◌≡◌, refl, ap, ◌∙◌, Bool, true, false, Option, none, List, [], ◌∷◌, map,
  String, All, length, length-append, ◌==◌, if◌then◌else◌, arith, Bool-cases, inl, inr,
}
use cidemis.Files.{
  FileField, Files, opened, ajoutfichier, choose, supprimerfichier, supprimerpremierfichier,
  supprimerfichierup, put_file, remove_field,
}
use cidemis.Files.Counts.{
  count, numbers, count-append, numbers-append, count-remove_field, length-remove_field,
  numbers-put_file, length-put_file, count-remove_id,
}

-- A click, or a choice of a file. The button of a file on record is there while the file is shown.
pub data Step : Files → Files → Type 0 where
  added : {s : Files} → Step s (ajoutfichier s)
  chosen : {s : Files} (n : ℕ) (file : Option String) → Step s (choose n file s)
  deleted : {s : Files} (n : ℕ) → Step s (supprimerfichier n s)
  emptied : {s : Files} → Step s (supprimerpremierfichier s)
  withdrawn :
      {s : Files} (sure : Bool) (id : ℕ)
      → 0 < count id s.uploaded
      → Step s (supprimerfichierup sure id s)

pub data Reach : Files → Files → Type 0 where
  start : {s : Files} → Reach s s
  then_ : {s t u : Files} → Reach s t → Step t u → Reach s u

-- No two fields have the same number, the next number is free, there is a field, and a file on
-- record is shown or is one of those to delete, as often as it was at first.
pub record IsSound (record_ : List ℕ) (s : Files) : Type 0 where
  pub once : (n : ℕ) → count n (numbers s.fields) ≤ 1
  pub free : (n : ℕ) → s.filecount < n → count n (numbers s.fields) ≡ 0
  pub kept : 0 < length s.fields
  accounted : (id : ℕ) → count id s.uploaded + count id s.filestodelete ≡ count id record_

opened-IsSound : (filecount : ℕ) (record_ : List ℕ) → IsSound record_ (opened filecount record_)
opened-IsSound filecount record_ = record {
  once = λ n. ground arith;
  free = λ n h. ground arith;
  kept = omega arith;
  accounted = λ id. omega arith;
}

module _ {record_ : List ℕ} {s : Files} (h : IsSound record_ s) where
  numbers-added :
      (n : ℕ)
      → count n (numbers (ajoutfichier s).fields)
        ≡ count n (numbers s.fields) + (if suc s.filecount == n then 1 else 0)
  unfolding ajoutfichier
  numbers-added n =
      ap (count n)
        (numbers-append s.fields (record { number = suc s.filecount; chosen = none } ∷ []))
      ∙ count-append n (numbers s.fields) (suc s.filecount ∷ [])

  ajoutfichier-IsSound : IsSound record_ (ajoutfichier s)
  unfolding ajoutfichier
  ajoutfichier-IsSound = record {
    once = λ n. ground (arith, numbers-added n, h.once n, h.free n);
    free = λ n k. ground (arith, numbers-added n, h.free n);
    kept =
        omega
          (arith, length-append s.fields (record { number = suc s.filecount; chosen = none } ∷ []));
    accounted = h.accounted;
  }

  choose-IsSound : (n : ℕ) (file : Option String) → IsSound record_ (choose n file s)
  unfolding choose
  choose-IsSound n file = record {
    once = λ m. rw (numbers-put_file n file s.fields) (h.once m);
    free = λ m k. rw (numbers-put_file n file s.fields) (h.free m k);
    kept = omega (arith, length-put_file n file s.fields, h.kept);
    accounted = h.accounted;
  }

  remove_field-IsSound :
      (n : ℕ)
      → (length s.fields == 1) ≡ false
      → IsSound record_ (record s { fields = remove_field n s.fields })
  remove_field-IsSound n several = record {
    once = λ m. omega (arith, count-remove_field m n s.fields, h.once m);
    free = λ m k. omega (arith, count-remove_field m n s.fields, h.free m k);
    kept = ground (arith, length-remove_field n s.fields, h.kept);
    accounted = h.accounted;
  }

  supprimerfichier-IsSound : (n : ℕ) → IsSound record_ (supprimerfichier n s)
  unfolding supprimerfichier
  supprimerfichier-IsSound n = elim (Bool-cases (length s.fields == 1)) [
    | inl last ↦ rw last (choose-IsSound n none)
    | inr several ↦ rw several (remove_field-IsSound n several)
  ]

  supprimerfichierup-IsSound :
      (sure : Bool) (id : ℕ)
      → 0 < count id s.uploaded
      → IsSound record_ (supprimerfichierup sure id s)
  unfolding supprimerfichierup
  supprimerfichierup-IsSound false id k = h
  supprimerfichierup-IsSound true id k = record {
    once = h.once;
    free = h.free;
    kept = h.kept;
    accounted = λ m. omega (
      arith,
      count-append m s.filestodelete (id ∷ []),
      count-remove_id m id s.uploaded k,
      h.accounted m,
    );
  }

  Step-IsSound : {t : Files} → Step s t → IsSound record_ t
  unfolding supprimerpremierfichier
  Step-IsSound added = ajoutfichier-IsSound
  Step-IsSound (chosen n file) = choose-IsSound n file
  Step-IsSound (deleted n) = supprimerfichier-IsSound n
  Step-IsSound emptied = choose-IsSound 0 none
  Step-IsSound (withdrawn sure id k) = supprimerfichierup-IsSound sure id k

-- After any clicks in a form no two fields for a file have the same number, also none that is
-- added next, at least one field is left, and each file on record is shown or is one of those to
-- delete, as often as it was on record.
pub Reach-IsSound :
    (filecount : ℕ) (record_ : List ℕ) (s : Files)
    → Reach (opened filecount record_) s
    → IsSound record_ s
Reach-IsSound filecount record_ s start = opened-IsSound filecount record_
Reach-IsSound filecount record_ s (then_ r step) =
    Step-IsSound (Reach-IsSound filecount record_ _ r) step

-- The field with the number n, if there is one, holds no file.
abbrev pub IsEmptied : ℕ → FileField → Type 0
IsEmptied n f = (f.number == n) ≡ true → f.chosen ≡ none

absent-IsEmptied : (n : ℕ) (fs : List FileField) → count n (numbers fs) ≡ 0 → All (IsEmptied n) fs
absent-IsEmptied n [] h = tt
absent-IsEmptied n (f ∷ fs) h = elim (Bool-cases (f.number == n)) [
  | inl here ↦ ground arith
  | inr other ↦ (λ here. cc, absent-IsEmptied n fs (ground (arith, other, h)))
]

remove_field-IsEmptied :
    (n : ℕ) (fs : List FileField) → count n (numbers fs) ≤ 1 → All (IsEmptied n) (remove_field n fs)
unfolding remove_field
remove_field-IsEmptied n [] h = tt
remove_field-IsEmptied n (f ∷ fs) h = elim (Bool-cases (f.number == n)) [
  | inl here ↦ rw here (absent-IsEmptied n fs (ground (arith, here, h)))
  | inr other ↦ rw other (λ here. cc, remove_field-IsEmptied n fs (ground (arith, other, h)))
]

put_file-IsEmptied : (n : ℕ) (fs : List FileField) → All (IsEmptied n) (map (put_file n none) fs)
unfolding put_file
put_file-IsEmptied n [] = tt
put_file-IsEmptied n (f ∷ fs) = elim (Bool-cases (f.number == n)) [
  | inl here ↦ rw here (λ h. refl, put_file-IsEmptied n fs)
  | inr other ↦ rw other (λ h. cc, put_file-IsEmptied n fs)
]

-- After any clicks in a form, the button of a field takes its file away: no field with its number
-- holds one.
pub supprimerfichier-IsEmptied :
    (filecount n : ℕ) (record_ : List ℕ) (s : Files)
    → Reach (opened filecount record_) s
    → All (IsEmptied n) (supprimerfichier n s).fields
unfolding supprimerfichier choose
supprimerfichier-IsEmptied filecount n record_ s r =
    let sound = Reach-IsSound filecount record_ s r in
    elim (Bool-cases (length s.fields == 1)) [
      | inl last ↦ rw last (put_file-IsEmptied n s.fields)
      | inr several ↦ rw several (remove_field-IsEmptied n s.fields (sound.once n))
    ]
