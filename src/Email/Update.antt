-- ===== src/Email/Update.antt =====
-- What the two buttons for the address do.
use cidemis.Base.{
  String, ◌≡◌, refl, true, some, List, [], ◌∷◌, map, codes, Bool-cases, inl, inr, if◌then◌else◌,
}
use cidemis.Base.Strings.Literals.{trim}
use cidemis.Browser.{
  World, Element, Post, val, attr, on, value_of, attr_of, first, set_attr, set_value,
}
use cidemis.Sending.{post}
use cidemis.Hints.{put_value}
use cidemis.Email.{
  test_email, updateemail, create_with, creat_email_button, modify_with, modifemail, showmodifemail,
}

abbrev pub email_post : String → Post
email_post email = record { url = "updateemail"; params = ("email", some email) ∷ [] }

-- `modifemail` sends the address in its field, without white space around it, if `testEmail`
-- accepts it, and sends nothing otherwise.
modifemail-posts :
    (w : World) (v : String)
    → val w "#modifemail input" ≡ some v
    → (modifemail w).posts
      ≡ (if test_email (codes (trim v)) then email_post (trim v) ∷ w.posts else w.posts)
unfolding modifemail modify_with updateemail post on
modifemail-posts w v h = elim (Bool-cases (test_email (codes (trim v)))) [
  | inl good ↦ rw (h, good) refl
  | inr bad ↦ rw (h, bad) refl
]

pub creat_email_button-posts :
    (w : World) (v : String)
    → val w "#mailpopup input" ≡ some v
    → (creat_email_button w).posts
      ≡ (if test_email (codes (trim v)) then email_post (trim v) ∷ w.posts else w.posts)
unfolding creat_email_button create_with updateemail post on
creat_email_button-posts w v h = elim (Bool-cases (test_email (codes (trim v)))) [
  | inl good ↦ rw (h, good) refl
  | inr bad ↦ rw (h, bad) refl
]

-- The first field has the attribute that is set, and then the value that is put into it.
shown_again :
    (email v : String) (es : List Element)
    → value_of (first es) ≡ some v
    → let noted = map (set_attr "mail" email) es in
      value_of (first (map (put_value (attr_of "mail" (first noted))) noted)) ≡ some email
unfolding set_attr put_value set_value
shown_again email v [] h = cc
shown_again email v (e ∷ es) h = refl

-- An address that `modifemail` accepts is what the field shows when it is opened again.
showmodifemail-modifemail :
    (w : World) (v : String)
    → val w "#modifemail input" ≡ some v
    → test_email (codes (trim v)) ≡ true
    → val (showmodifemail (modifemail w)) "#modifemail input" ≡ some (trim v)
unfolding showmodifemail modifemail modify_with updateemail post on val attr
showmodifemail-modifemail w v h good =
    rw (h, good) (shown_again (trim v) v (w.elements "#modifemail input") h)
