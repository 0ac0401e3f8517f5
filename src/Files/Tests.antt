-- ===== src/Files/Tests.antt =====
-- Clicks in a form with two files on record.
use cidemis.Base.{◌≡◌, refl, none, some, true, [], ◌∷◌, arith}
use cidemis.Files.{
  Files, opened, ajoutfichier, choose, supprimerfichier, supprimerfichierup, put_file, remove_field,
}
use cidemis.Files.Steps.{
  Reach, start, then_, added, chosen, deleted, withdrawn, IsSound, Reach-IsSound,
}

-- A file is chosen, a field is added, the first one is deleted, and a file is withdrawn.
abbrev clicked : Files
clicked =
    supprimerfichierup true 8
      (supprimerfichier 0 (ajoutfichier (choose 0 (some "lettre.pdf") (opened 2 (7 ∷ 8 ∷ [])))))

clicked-Reach : Reach (opened 2 (7 ∷ 8 ∷ [])) clicked
unfolding supprimerfichier ajoutfichier choose
clicked-Reach =
    then_ (then_ (then_ (then_ start (chosen 0 (some "lettre.pdf"))) added) (deleted 0))
      (withdrawn true 8 (omega arith))

one_left : clicked.fields ≡ record { number = 3; chosen = none } ∷ []
unfolding supprimerfichierup supprimerfichier ajoutfichier choose put_file remove_field
one_left = refl

Reach-IsSound_example : IsSound (7 ∷ 8 ∷ []) clicked
Reach-IsSound_example = Reach-IsSound 2 (7 ∷ 8 ∷ []) clicked clicked-Reach
