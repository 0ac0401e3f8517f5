-- ===== src/Submit/Tests.antt =====
-- Clicks on the buttons of a form.
use cidemis.Base.{◌≡◌, some, [], ◌∷◌, if◌then◌else◌, All}
use cidemis.Samples.{agreeing, numbering, green_button}
use cidemis.Submit.{button, send, actiondemande}
use cidemis.Submit.Sends.{sends, actiondemande-sends}
use cidemis.Submit.Content.{HidesHint, send-HidesHint}

actiondemande-sends_example :
    (actiondemande agreeing
      (some "1")
      (button (green_button "accepter"))
      (numbering "0317-8471")).submits
    ≡ (if sends agreeing (green_button "accepter") (numbering "0317-8471")
        then "#creation-demande" ∷ []
        else [])
actiondemande-sends_example =
    actiondemande-sends agreeing (some "1") (button (green_button "accepter"))
      (numbering "0317-8471")

send-HidesHint_example :
    All HidesHint
      ((send (some "accepter") (some "1") (numbering "0317-8471")).elements "#commentaire")
send-HidesHint_example =
    send-HidesHint (some "accepter") (some "1") (numbering "0317-8471") "#commentaire"
