-- ===== src/Form/Verdict.antt =====
-- What `verifdemande` answers, read off the page before any check has written to it.
use cidemis.Base.{Option, ℕ, ◌≡◌, ◌∙◌, ap, String, Bool, true, ◌&&◌}
use cidemis.Browser.{World, Outside}
use cidemis.Browser.Laws.{SameInputs}
use cidemis.Form.{
  State, file_total, verifdemande, check_notice, check_comment, check_issn, check_ppn, check_zones,
  check_answer, check_files, check_correction, rejection_message, refusal_message,
  precisions_message,
}
use cidemis.Form.Follows.{Reads, Reads-and, Follows, Follows-compose}
use cidemis.Form.Conditions.{
  correction_ok, files_ok, comment_ok, zones_ok, ppn_ok, answer_ok, issn_ok, notice_ok,
}
use cidemis.Form.Checks.{
  check_correction-Follows, check_files-Follows, check_comment-Follows, check_zones-Follows,
  check_ppn-Follows, check_answer-Follows, check_issn-Follows, check_notice-Follows,
  correction_ok-Reads, files_ok-Reads, comment_ok-Reads, zones_ok-Reads, ppn_ok-Reads,
  answer_ok-Reads, issn_ok-Reads, notice_ok-Reads,
}

-- The conditions of all checks, for a number of files.
abbrev conditions : Outside → Option String → ℕ → World → Bool
conditions o action files w =
    correction_ok w
    && files_ok o action files w
    && comment_ok "precisions" action w
    && comment_ok "refuser" action w
    && zones_ok action w
    && ppn_ok o action w
    && answer_ok w
    && issn_ok o action w
    && comment_ok "rejeter" action w
    && notice_ok o action w

-- The form is in order for an action: nothing is missing, and the user and the server agree.
abbrev pub form_ok : Outside → Option String → World → Bool
form_ok o action w = conditions o action (file_total w) w

module _ (o : Outside) (action : Option String) (files : ℕ) where
  early_Follows :
      Follows
        (λ w.
          correction_ok w
          && files_ok o action files w
          && comment_ok "precisions" action w
          && comment_ok "refuser" action w
          && zones_ok action w)
        (λ st. check_zones action (
          check_comment "refuser" refusal_message action (
            check_comment "precisions" precisions_message action
              (check_files o action files (check_correction st)))))
  early_Follows =
      Follows-compose (zones_ok-Reads action)
        (Follows-compose (comment_ok-Reads "refuser" action)
          (Follows-compose (comment_ok-Reads "precisions" action)
            (Follows-compose (files_ok-Reads o action files) check_correction-Follows
              (check_files-Follows o action files))
            (check_comment-Follows "precisions" precisions_message action))
          (check_comment-Follows "refuser" refusal_message action))
        (check_zones-Follows action)

  late_Follows :
      {c : World → Bool} {f : State → State}
      → Follows c f
      → Follows
          (λ w.
            c w
            && ppn_ok o action w
            && answer_ok w
            && issn_ok o action w
            && comment_ok "rejeter" action w
            && notice_ok o action w)
          (λ st. check_notice o action (
            check_comment "rejeter" rejection_message action
              (check_issn o action (check_answer (check_ppn o action (f st))))))
  late_Follows p =
      Follows-compose (notice_ok-Reads o action)
        (Follows-compose (comment_ok-Reads "rejeter" action)
          (Follows-compose (issn_ok-Reads o action)
            (Follows-compose answer_ok-Reads
              (Follows-compose (ppn_ok-Reads o action) p (check_ppn-Follows o action))
              check_answer-Follows)
            (check_issn-Follows o action))
          (check_comment-Follows "rejeter" rejection_message action))
        (check_notice-Follows o action)

conditions-Reads : (o : Outside) (action : Option String) (n : ℕ) → Reads (conditions o action n)
conditions-Reads o action n =
    Reads-and
      (Reads-and
        (Reads-and
          (Reads-and
            (Reads-and
              (Reads-and
                (Reads-and
                  (Reads-and (Reads-and correction_ok-Reads (files_ok-Reads o action n))
                    (comment_ok-Reads "precisions" action))
                  (comment_ok-Reads "refuser" action))
                (zones_ok-Reads action))
              (ppn_ok-Reads o action))
            answer_ok-Reads)
          (issn_ok-Reads o action))
        (comment_ok-Reads "rejeter" action))
      (notice_ok-Reads o action)

-- `verifdemande` answers true exactly if the page, as it was before the first check wrote to it,
-- meets the condition of each of the ten checks, for any action, user and server; so no check's
-- error marks change what a later check finds.
pub verifdemande-form_ok :
    (o : Outside) (action : Option String) (w : World)
    → (verifdemande o action w).0 ≡ form_ok o action w
unfolding verifdemande
verifdemande-form_ok o action w =
    (late_Follows o action (file_total w) (early_Follows o action (file_total w))).verdict (true, w)

-- The checks leave every value, attribute and number of elements of the page as it was.
pub verifdemande-SameInputs :
    (o : Outside) (action : Option String) (w : World) → SameInputs w (verifdemande o action w).1
unfolding verifdemande
verifdemande-SameInputs o action w =
    (late_Follows o action (file_total w) (early_Follows o action (file_total w))).inputs (true, w)

-- Pages that show the same form with the same files get the same verdict.
pub form_ok-SameInputs :
    (o : Outside) (action : Option String) {w w' : World}
    → SameInputs w w'
    → file_total w' ≡ file_total w
    → form_ok o action w' ≡ form_ok o action w
form_ok-SameInputs o action {w} {w'} s e =
    ap (λ n. conditions o action n w') e ∙ conditions-Reads o action (file_total w) w w' s
