-- ===== src/Rows/Asked.antt =====
-- What a click on a button in a row comes to.
use package.text.Mathlib.Text.{◌==◌ as str_eq}
use cidemis.Base.{
  ℕ, ◌+◌, ◌≡◌, refl, Bool, true, false, ◌&&◌, List, [], ◌∷◌, if◌then◌else◌, arith, Bool-cases, inl,
  inr,
}
use cidemis.Browser.{Outside, Element, Post, ask, on}
use cidemis.Sending.{Completion, answered, failed, post}
use cidemis.Rows.{
  Table, reload_table, deletion_question, archive_question, supprimerdemandeajax,
  archiverdemandeajax, suppressiondemande, popuparchive, end_deletion, end_archive, delete_row,
  archive_row,
}

abbrev pub is_empty_answer : Completion → Bool
is_empty_answer failed = false
is_empty_answer (answered data_) = str_eq data_ ""

abbrev pub is_answered : Completion → Bool
is_answered failed = false
is_answered (answered data_) = true

abbrev pub one_if : Bool → ℕ
one_if b = if b then 1 else 0

abbrev pub sent_if : Bool → Post → List Post → List Post
sent_if b p ps = if b then p ∷ ps else ps

end_deletion-posts : (c : Completion) (l : Table) → (end_deletion c l).world.posts ≡ l.world.posts
unfolding end_deletion on
end_deletion-posts failed l = refl
end_deletion-posts (answered data_) l = ground arith

end_deletion-reloads :
    (c : Completion) (l : Table)
    → l.made ≡ true
    → (end_deletion c l).reloads ≡ l.reloads + one_if (is_empty_answer c)
unfolding end_deletion reload_table
end_deletion-reloads failed l h = omega arith
end_deletion-reloads (answered data_) l h = elim (Bool-cases (str_eq data_ "")) [
  | inl empty ↦ rw (empty, h) (omega arith)
  | inr full ↦ rw full (omega arith)
]

end_archive-reloads :
    (c : Completion) (l : Table)
    → l.made ≡ true
    → (end_archive c l).reloads ≡ l.reloads + one_if (is_answered c)
unfolding end_archive reload_table
end_archive-reloads failed l h = omega arith
end_archive-reloads (answered data_) l h = rw h (omega arith)

end_archive-posts : (c : Completion) (l : Table) → (end_archive c l).world.posts ≡ l.world.posts
unfolding end_archive
end_archive-posts failed l = refl
end_archive-posts (answered data_) l = ground arith

-- Where the table was made, the request of a deletion is sent if the user confirms and not
-- otherwise, and the table is loaded again if, besides, the server answers with an empty text,
-- and not otherwise.
delete_row-confirms :
    (o : Outside) (el : Element) (c : Completion) (l : Table)
    → l.made ≡ true
    → let num = el.attrs "demandenum" in
      let sure = o.confirms (deletion_question num) in
      ((delete_row o el c l).world.posts
        ≡ sent_if sure
            (record { url = "SuppressionDemande"; params = ("demandenum", num) ∷ [] })
            l.world.posts)
      × ((delete_row o el c l).reloads ≡ l.reloads + one_if (sure && is_empty_answer c))
unfolding delete_row suppressiondemande supprimerdemandeajax post ask
delete_row-confirms o el c l h =
    elim (Bool-cases (o.confirms (deletion_question (el.attrs "demandenum")))) [
      | inl sure ↦ rw sure (end_deletion-posts c _, end_deletion-reloads c _ h)
      | inr unsure ↦ rw unsure (refl, omega arith)
    ]

-- Where the table was made, the request of an archiving is sent if the user confirms and not
-- otherwise, and the table is loaded again if, besides, the server answers, with whatever text,
-- and not otherwise.
pub archive_row-confirms :
    (o : Outside) (el : Element) (c : Completion) (l : Table)
    → l.made ≡ true
    → let num = el.attrs "demandenum" in
      let sure = o.confirms (archive_question num) in
      ((archive_row o el c l).world.posts
        ≡ sent_if sure
            (record { url = "ArchivageDemande"; params = ("demandenum", num) ∷ [] })
            l.world.posts)
      × ((archive_row o el c l).reloads ≡ l.reloads + one_if (sure && is_answered c))
unfolding archive_row popuparchive archiverdemandeajax post ask
archive_row-confirms o el c l h =
    elim (Bool-cases (o.confirms (archive_question (el.attrs "demandenum")))) [
      | inl sure ↦ rw sure (end_archive-posts c _, end_archive-reloads c _ h)
      | inr unsure ↦ rw unsure (refl, omega arith)
    ]
