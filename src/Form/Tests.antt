-- ===== src/Form/Tests.antt =====
-- The checks of a form at concrete pages.
use cidemis.Base.{◌≡◌, refl, Option, String, true, false, some, inl, inr, codes}
use cidemis.Browser.{World, Outside, val, attr, size, on, add_class, set_html, show, ajax, ask}
use cidemis.Issn.{checksum_ok, issn_format}
use cidemis.Issn.Format.{IsIssn}
use cidemis.Service.{verifierppnajax, verifiernoticeajax, error_issn_ajax, issn_post}
use cidemis.Samples.{agreeing, unreachable, numbering, commented, correction}
use cidemis.Form.{
  State, verifdemande, awaits_answer, file_total, check_correction, check_files, check_comment,
  check_zones, check_ppn, check_answer, check_issn, check_notice, show_popup, mark,
  check_attributed, is_valid_issn,
}
use cidemis.Form.Verdict.{form_ok, verifdemande-form_ok}
use cidemis.Form.Meaning.{IsCommented, IsFree, verifdemande-IsIssn, verifdemande-IsCommented}

-- Unfolds all that the checks call.
run : Outside → Option String → World → State
unfolding verifdemande file_total check_correction check_files check_comment check_zones check_ppn
    check_answer check_issn check_notice show_popup mark check_attributed is_valid_issn
    verifierppnajax verifiernoticeajax error_issn_ajax ajax ask on add_class set_html show val attr
    size issn_format checksum_ok codes
run = verifdemande

numbered : (verifdemande agreeing (some "accepter") (numbering "0317-8471")).0 ≡ true
unfolding run
numbered = refl

misnumbered : (verifdemande agreeing (some "accepter") (numbering "0317-8472")).0 ≡ false
unfolding run
misnumbered = refl

unreached : (verifdemande unreachable (some "accepter") (numbering "0317-8471")).0 ≡ false
unfolding run
unreached = refl

type_numbering : val (numbering "0317-8471") "#type_demande" ≡ some "22"
unfolding val
type_numbering = refl

refused_with_comment : (verifdemande agreeing (some "refuser") commented).0 ≡ true
unfolding run
refused_with_comment = refl

refused_without_comment : (verifdemande agreeing (some "refuser") (numbering "0317-8471")).0 ≡ false
unfolding run
refused_without_comment = refl

awaited : awaits_answer commented ≡ true
unfolding val
awaited = refl

zoned : (verifdemande agreeing (some "valider") correction).0 ≡ true
unfolding run
zoned = refl

type_correction : val correction "#type_demande" ≡ some "23"
unfolding val
type_correction = refl

verifdemande-form_ok_example :
    (verifdemande agreeing (some "accepter") (numbering "0317-8472")).0
    ≡ form_ok agreeing (some "accepter") (numbering "0317-8472")
verifdemande-form_ok_example =
    verifdemande-form_ok agreeing (some "accepter") (numbering "0317-8472")

verifdemande-IsIssn_example :
    (issn : String) × (val (numbering "0317-8471") "#num_ISSN" ≡ some issn)
    × IsIssn (codes issn)
    × IsFree (agreeing.reply (issn_post (some issn) (val (numbering "0317-8471") "#ppn")))
verifdemande-IsIssn_example =
    verifdemande-IsIssn agreeing (numbering "0317-8471") type_numbering numbered

verifdemande-IsCommented_example : IsCommented commented
verifdemande-IsCommented_example =
    verifdemande-IsCommented agreeing (some "refuser") commented (inr (inl refl))
      refused_with_comment
