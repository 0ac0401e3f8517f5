-- ===== src/Email/Tests.antt =====
-- Addresses, and the buttons at a concrete page.
use cidemis.Email.Address.{HasAddress, test_email-HasAddress_iff}
use cidemis.Base.{◌↔◌, ◌≡◌, refl, true, false, some, [], ◌∷◌, codes}
use cidemis.Base.Strings.Literals.{trim, trim_start, trim_end, is_space}
use cidemis.Browser.{World, val}
use cidemis.Samples.{field, page}
use cidemis.Regex.{finds, accepts_start, deriv, nullable}
use cidemis.Email.{test_email, reg_email, label, local_part, domain}

good_address : test_email (codes "a.b@c.fr") ≡ true
unfolding test_email reg_email label local_part domain codes finds accepts_start deriv nullable
good_address = refl

no_address : test_email (codes "a@fr") ≡ false
unfolding test_email reg_email label local_part domain codes finds accepts_start deriv nullable
no_address = refl

abbrev panel : World
panel = page (
    ("#modifemail input", field " a.b@c.fr")
    ∷ ("#mailpopup input", field "a@fr")
    ∷ (".email", field "")
    ∷ [])

panel_value : val panel "#modifemail input" ≡ some " a.b@c.fr"
unfolding val
panel_value = refl

trimmed : trim " a.b@c.fr" ≡ "a.b@c.fr"
unfolding trim trim_start trim_end is_space
trimmed = refl

-- Labels may hold `-` inside, and the case of letters matters.
with_dash : test_email (codes "a@b-c.fr") ≡ true
unfolding test_email reg_email label local_part domain codes finds accepts_start deriv nullable
with_dash = refl

dash_first : test_email (codes "a@-b.-c") ≡ false
unfolding test_email reg_email label local_part domain codes finds accepts_start deriv nullable
dash_first = refl

in_sentence : test_email (codes "A a@b.c, D@E.F") ≡ true
unfolding test_email reg_email label local_part domain codes finds accepts_start deriv nullable
in_sentence = refl

test_email-HasAddress_iff_example :
    (test_email (codes "a.b@c.fr") ≡ true) ↔ HasAddress (codes "a.b@c.fr")
test_email-HasAddress_iff_example = test_email-HasAddress_iff (codes "a.b@c.fr")
