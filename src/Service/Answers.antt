-- ===== src/Service/Answers.antt =====
-- When the server's answers let a form pass.
use package.text.Mathlib.TextEquality.{eq_iff}
use cidemis.Base.{◌≡◌, ◌↔◌, ◌⊎◌, String, false, Option, arith}
use cidemis.Browser.{World, Outside, Reply, success, failure, Body, ajax}
use cidemis.Service.{truthy, notice_answer, notice_post, verifiernoticeajax}

notice_answer_passes :
    (r : Reply)
    → (truthy (notice_answer r) ≡ false)
      ↔ ((r ≡ success (Body.text "OK")) ⊎ (r ≡ success (Body.text "")))
notice_answer_passes (success (Body.text t)) = ground (arith, eq_iff t "OK", eq_iff t "")
notice_answer_passes (success (Body.exist b)) = ground arith
notice_answer_passes failure = ground arith

-- `verifiernoticeajax` reports no error exactly if the server answers with the text OK or with an
-- empty text.
verifiernoticeajax-passes_iff :
    (o : Outside) (ppn : Option String) (w : World)
    → (truthy (verifiernoticeajax o ppn w).0 ≡ false) ↔ (
        (o.reply (notice_post ppn) ≡ success (Body.text "OK"))
        ⊎ (o.reply (notice_post ppn) ≡ success (Body.text "")))
unfolding verifiernoticeajax ajax
verifiernoticeajax-passes_iff o ppn w = notice_answer_passes (o.reply (notice_post ppn))
