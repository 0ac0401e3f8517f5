-- ===== src/Form/Checks.antt =====
-- Each check of a form asks for its condition, and leaves the fields of the form alone.
use cidemis.Base.{
  ℕ, ◌≡◌, refl, ap, ◌∙◌, String, Bool, true, false, not, ◌&&◌, Option, none, some, if◌then◌else◌,
  codes,
}
use cidemis.Browser.{World, Outside, val, ask, ajax}
use cidemis.Browser.Laws.{
  SameInputs, SameInputs-trans, on-SameInputs, ajax-SameInputs, ask-SameInputs,
  add_class-KeepsInputs, set_html-KeepsInputs, show-KeepsInputs,
}
use cidemis.Issn.{checksum_ok}
use cidemis.Service.{
  truthy, spelling, verifierppnajax, verifiernoticeajax, error_issn_ajax, ppn_answer, notice_answer,
  exist_answer, ppn_post, notice_post, issn_post, written,
}
use cidemis.Form.{
  mark, is_valid_issn, check_correction, check_files, check_comment, check_zones, check_ppn,
  check_answer, check_issn, check_notice, check_number, check_attributed, checksum_message,
  show_popup, notice_content, no_files_message,
}
use cidemis.Form.Follows.{
  Reads, Follows, Follows-compose, Follows-skip, Follows-refuse, Follows-if, Follows-ask,
  Follows-answer,
}
use cidemis.Form.Conditions.{
  correction_ok, files_ok, comment_ok, zones_ok, issn_refused, ppn_ok, answer_ok, number_ok,
  issn_ok, notice_ok,
}

mark-SameInputs : (field msg : String) (w : World) → SameInputs w (mark field msg w)
unfolding mark
mark-SameInputs field msg w =
    SameInputs-trans (on-SameInputs _ _ w (add_class-KeepsInputs _))
      (on-SameInputs _ _ _ (set_html-KeepsInputs _))

pub check_correction-Follows : Follows correction_ok check_correction
unfolding check_correction
check_correction-Follows = Follows-if _ (Follows-refuse _ (mark-SameInputs _ _)) Follows-skip

ask-confirms : (o : Outside) (m : String) (w : World) → (ask o m w).0 ≡ o.confirms m
unfolding ask
ask-confirms o m w = refl

pub check_files-Follows :
    (o : Outside) (action : Option String) (n : ℕ)
    → Follows (files_ok o action n) (check_files o action n)
unfolding check_files
check_files-Follows o action n =
    Follows-if _ (Follows-ask _ (ask o no_files_message) (ask-confirms o _) (ask-SameInputs o _))
      Follows-skip

pub check_comment-Follows :
    (a msg : String) (action : Option String)
    → Follows (comment_ok a action) (check_comment a msg action)
unfolding check_comment
check_comment-Follows a msg action =
    Follows-if _ (Follows-refuse _ (mark-SameInputs _ _)) Follows-skip

pub check_zones-Follows : (action : Option String) → Follows (zones_ok action) (check_zones action)
unfolding check_zones
check_zones-Follows action =
    Follows-if _ (Follows-if _ (Follows-refuse _ (mark-SameInputs _ _)) Follows-skip) Follows-skip

pub check_answer-Follows : Follows answer_ok check_answer
unfolding check_answer
check_answer-Follows = Follows-if _ (Follows-refuse _ (mark-SameInputs _ _)) Follows-skip

-- The questions to the server change nothing that the conditions look at.
verifierppnajax-SameInputs :
    (o : Outside) (p : Option String) (w : World) → SameInputs w (verifierppnajax o p w).1
unfolding verifierppnajax
verifierppnajax-SameInputs o p w = ajax-SameInputs o (ppn_post p) w

verifierppnajax_answer :
    (o : Outside) (p : Option String) (w : World)
    → (verifierppnajax o p w).0 ≡ ppn_answer (written p) (o.reply (ppn_post p))
unfolding verifierppnajax ajax
verifierppnajax_answer o p w = refl

verifiernoticeajax-SameInputs :
    (o : Outside) (p : Option String) (w : World) → SameInputs w (verifiernoticeajax o p w).1
unfolding verifiernoticeajax
verifiernoticeajax-SameInputs o p w = ajax-SameInputs o (notice_post p) w

verifiernoticeajax_answer :
    (o : Outside) (p : Option String) (w : World)
    → (verifiernoticeajax o p w).0 ≡ notice_answer (o.reply (notice_post p))
unfolding verifiernoticeajax ajax
verifiernoticeajax_answer o p w = refl

error_issn_ajax-SameInputs :
    (o : Outside) (i p : Option String) (w : World) → SameInputs w (error_issn_ajax o i p w).1
unfolding error_issn_ajax
error_issn_ajax-SameInputs o i p w = ajax-SameInputs o (issn_post i p) w

error_issn_ajax_answer :
    (o : Outside) (i p : Option String) (w : World)
    → (error_issn_ajax o i p w).0 ≡ exist_answer (o.reply (issn_post i p))
unfolding error_issn_ajax ajax
error_issn_ajax_answer o i p w = refl

show_popup-SameInputs : (content : String) (w : World) → SameInputs w (show_popup content w)
unfolding show_popup
show_popup-SameInputs content w =
    SameInputs-trans (on-SameInputs _ _ w (set_html-KeepsInputs _))
      (on-SameInputs _ _ _ show-KeepsInputs)

pub check_ppn-Follows :
    (o : Outside) (action : Option String) → Follows (ppn_ok o action) (check_ppn o action)
unfolding check_ppn
check_ppn-Follows o action =
    Follows-if _
      (Follows-if _ (Follows-refuse _ (mark-SameInputs _ _)) (
        Follows-answer _ (λ w. verifierppnajax o (val w "#num_ppn") w)
          (λ a w. mark "#num_ppn" (spelling a) w) (λ w. ap truthy (verifierppnajax_answer o _ w))
          (λ w. verifierppnajax-SameInputs o _ w) (λ a w. mark-SameInputs _ _ w)))
      Follows-skip

pub check_notice-Follows :
    (o : Outside) (action : Option String) → Follows (notice_ok o action) (check_notice o action)
unfolding check_notice
check_notice-Follows o action =
    Follows-if _
      (Follows-answer _ (λ w. verifiernoticeajax o (val w "#ppn") w)
        (λ a w. show_popup (notice_content (spelling a)) w)
        (λ w. ap truthy (verifiernoticeajax_answer o _ w))
        (λ w. verifiernoticeajax-SameInputs o _ w) (λ a w. show_popup-SameInputs _ w))
      Follows-skip

check_attributed-Follows :
    (o : Outside) → Follows (λ w. if issn_refused o w then false else true) (check_attributed o)
unfolding check_attributed
check_attributed-Follows o =
    Follows-answer _ (λ w. error_issn_ajax o (val w "#num_ISSN") (val w "#ppn") w)
      (λ a w. mark "#num_ISSN" "Numéro ISSN déjà attribué" w)
      (λ w. ap truthy (error_issn_ajax_answer o _ _ w)) (λ w. error_issn_ajax-SameInputs o _ _ w)
      (λ a w. mark-SameInputs _ _ w)

issn_refused-Reads : (o : Outside) → Reads (λ w. if issn_refused o w then false else true)
issn_refused-Reads o w w' s = simp (s.same_val)

check_digit-Follows :
    (issn : String)
    → Follows
        (λ w. if checksum_ok (codes issn) then true else false)
        (λ st.
          if checksum_ok (codes issn) then st else (false, mark "#num_ISSN" checksum_message st.1))
check_digit-Follows issn = Follows-if _ Follows-skip (Follows-refuse _ (mark-SameInputs _ _))

-- `isValidISSN` from its start: `valid` is true there.
is_valid_issn-Follows :
    (o : Outside) (issn : String)
    → Follows
        (λ w.
          (if checksum_ok (codes issn) then true else false)
          && (if issn_refused o w then false else true))
        (λ st. check_attributed o (
          if checksum_ok (codes issn) then st else (false, mark "#num_ISSN" checksum_message st.1)))
is_valid_issn-Follows o issn =
    Follows-compose (issn_refused-Reads o) (check_digit-Follows issn) (check_attributed-Follows o)

if_and_not :
    (a b : Bool) → ((if a then true else false) && (if b then false else true)) ≡ (a && not b)
if_and_not true true = refl
if_and_not true false = refl
if_and_not false b = refl

-- `isValidISSN` accepts a number with a good check digit that the server does not know of.
is_valid_issn_verdict :
    (o : Outside) (issn : String) (w : World)
    → (is_valid_issn o issn w).0 ≡ (checksum_ok (codes issn) && not (issn_refused o w))
unfolding is_valid_issn
is_valid_issn_verdict o issn w = (is_valid_issn-Follows o issn).verdict (true, w) ∙ if_and_not _ _

is_valid_issn_inputs :
    (o : Outside) (issn : String) (w : World) → SameInputs w (is_valid_issn o issn w).1
unfolding is_valid_issn
is_valid_issn_inputs o issn w = (is_valid_issn-Follows o issn).inputs (true, w)

check_number-Follows :
    (o : Outside) (v : Option String) → Follows (number_ok o v) (check_number o v)
check_number-Follows o none = Follows-skip
check_number-Follows o (some issn) =
    Follows-if _
      (Follows-ask _ (is_valid_issn o issn) (is_valid_issn_verdict o issn)
        (is_valid_issn_inputs o issn))
      (Follows-refuse _ (mark-SameInputs _ _))

number_ok-Reads : (o : Outside) (v : Option String) → Reads (number_ok o v)
number_ok-Reads o none w w' s = refl
number_ok-Reads o (some issn) w w' s = simp (s.same_val)

pub check_issn-Follows :
    (o : Outside) (action : Option String) → Follows (issn_ok o action) (check_issn o action)
unfolding check_issn
check_issn-Follows o action =
    Follows-if _ (Follows-if _ (Follows-refuse _ (mark-SameInputs _ _)) (given o)) Follows-skip
  where
    given :
        (o : Outside)
        → Follows
            (λ w. number_ok o (val w "#num_ISSN") w)
            (λ st. check_number o (val st.1 "#num_ISSN") st)
    given o = record {
      verdict = λ st. (check_number-Follows o (val st.1 "#num_ISSN")).verdict st;
      inputs = λ st. (check_number-Follows o (val st.1 "#num_ISSN")).inputs st;
    }

-- No condition looks at what the checks write.
pub comment_ok-Reads : (a : String) (action : Option String) → Reads (comment_ok a action)
comment_ok-Reads a action w w' s = simp (s.same_val, s.same_attr)

pub files_ok-Reads : (o : Outside) (action : Option String) (n : ℕ) → Reads (files_ok o action n)
files_ok-Reads o action n w w' s = simp (s.same_val)

pub zones_ok-Reads : (action : Option String) → Reads (zones_ok action)
zones_ok-Reads action w w' s = simp (s.same_val)

pub ppn_ok-Reads : (o : Outside) (action : Option String) → Reads (ppn_ok o action)
ppn_ok-Reads o action w w' s = simp (s.same_val)

pub answer_ok-Reads : Reads answer_ok
answer_ok-Reads w w' s = simp (s.same_val, s.same_attr)

pub issn_ok-Reads : (o : Outside) (action : Option String) → Reads (issn_ok o action)
issn_ok-Reads o action w w' s = simp (s.same_val, number_ok-Reads o _ w w' s)

pub notice_ok-Reads : (o : Outside) (action : Option String) → Reads (notice_ok o action)
notice_ok-Reads o action w w' s = simp (s.same_val)

pub correction_ok-Reads : Reads correction_ok
correction_ok-Reads w w' s = simp (s.same_val, s.same_attr, s.same_size)
