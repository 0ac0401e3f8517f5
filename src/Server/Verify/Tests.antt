-- ===== src/Server/Verify/Tests.antt =====
-- Answers about the PPN of a French periodical.
use cidemis.Base.{Bool, true, false, Option, some, List, [], ◌∷◌, Text, ◌≡◌, ◌↔◌, ◌⊎◌, refl}
use cidemis.Browser.{Outside, Post, Reply, failure}
use cidemis.Samples.{page}
use cidemis.Service.{truthy, verifierppnajax, verifiernoticeajax}
use cidemis.Server.{Notice, Demande}
use cidemis.Server.Samples.{paper, sent_to}
use cidemis.Server.Verify.{is_ppn, sent, routes}
use cidemis.Server.Verify.Answers.{
  IsNumberable, verifierppnajax-IsNumberable, verifiernoticeajax-is_ppn,
}

abbrev sudoc : Text → Option Notice
sudoc ppn = some paper

abbrev may_change : Text → Bool
may_change ppn = true

abbrev table : List Demande
table = sent_to 39 (39 ∷ 36 ∷ []) ∷ []

abbrev silent : Post → Reply
silent p = failure

abbrev server : Outside
server = record { reply = routes sudoc may_change table silent; confirms = λ q. true }

verifierppnajax-IsNumberable_example :
    (truthy (verifierppnajax server (some "123456789") (page [])).0 ≡ false)
    ↔ IsNumberable sudoc table (sent (some "123456789"))
verifierppnajax-IsNumberable_example =
    verifierppnajax-IsNumberable sudoc may_change table silent server (some "123456789") (page [])
      refl

verifiernoticeajax-is_ppn_example :
    (truthy (verifiernoticeajax server (some "12345") (page [])).0 ≡ false)
    ↔ ((is_ppn (sent (some "12345")) ≡ false) ⊎ (may_change (sent (some "12345")) ≡ true))
verifiernoticeajax-is_ppn_example =
    verifiernoticeajax-is_ppn sudoc may_change table silent server (some "12345") (page []) refl
