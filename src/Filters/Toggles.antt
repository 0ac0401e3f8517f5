-- ===== src/Filters/Toggles.antt =====
-- The checkboxes of the table: their cookies, and the requests that load the table.
use cidemis.Base.{
  ℕ, ◌≡◌, refl, ap, ◌∙◌, Bool, true, false, not, Option, some, ◌∷◌, Text, codes, same,
  if◌then◌else◌, arith,
}
use cidemis.Base.Strings.Split.{Lacks}
use cidemis.Cookies.RoundTrip.{IsCookie}
use cidemis.Cookies.Assign.{IsJar, IsStripped, set_cookie-IsJar, get_cookie_value-assign}
use cidemis.Cookies.Jar.{strip, strip_start, strip_end}
use cidemis.Filters.{
  Listing, done_cookie, archived_cookie, flag_text, flag, list_url, appel_ajax, afficherdemandeajax,
  keep_flag, flip_flag, change_done, change_archived,
}

abbrev IsName : Text → Type 0
IsName n = Lacks b'=' n × Lacks b';' n × (strip n ≡ n)

done-IsName : IsName done_cookie
unfolding done_cookie codes strip strip_start strip_end
done-IsName = (omega arith, omega arith, refl)

archived-IsName : IsName archived_cookie
unfolding archived_cookie codes strip strip_start strip_end
archived-IsName = (omega arith, omega arith, refl)

flag-IsCookie : (n : Text) (b : Bool) → IsName n → IsCookie (n, flag_text b)
unfolding flag_text codes
flag-IsCookie n true (h, k, s) = (h, k, omega arith)
flag-IsCookie n false (h, k, s) = (h, k, omega arith)

flag-IsStripped : (n : Text) (b : Bool) → IsName n → IsStripped (n, flag_text b)
unfolding flag_text codes strip strip_start strip_end
flag-IsStripped n true (h, k, s) = (s, refl)
flag-IsStripped n false (h, k, s) = (s, refl)

done-done : same done_cookie done_cookie ≡ true
unfolding done_cookie codes same
done-done = refl

done-archived : same done_cookie archived_cookie ≡ false
unfolding done_cookie archived_cookie codes same
done-archived = refl

archived-done : same archived_cookie done_cookie ≡ false
unfolding done_cookie archived_cookie codes same
archived-done = refl

archived-archived : same archived_cookie archived_cookie ≡ true
unfolding archived_cookie codes same
archived-archived = refl

-- What the checkboxes ask for is in the cookies: whether the finished and the archived requests are
-- shown.
abbrev pub Flags : Listing → Bool → Bool → Type 0
Flags l a b =
    IsJar l.jar
    × (flag done_cookie l ≡ some (flag_text a))
    × (flag archived_cookie l ≡ some (flag_text b))

module _ (to_utc_string : ℕ → Text) (now : ℕ) where
  flag-keep_flag :
      (n m : Text) (b : Bool) (l : Listing)
      → IsName n
      → IsName m
      → IsJar l.jar
      → flag m (keep_flag to_utc_string now n b l)
        ≡ (if same n m then some (flag_text b) else flag m l)
  unfolding flag keep_flag
  flag-keep_flag n m b l hn hm (ks, d) =
      get_cookie_value-assign to_utc_string now 1 n (flag_text b) m l.jar (flag-IsCookie n b hn)
        (flag-IsStripped n b hn) hm.0 ks d

  keep_flag-IsJar :
      (n : Text) (b : Bool) (l : Listing)
      → IsName n
      → IsJar l.jar
      → IsJar (keep_flag to_utc_string now n b l).jar
  unfolding keep_flag
  keep_flag-IsJar n b l hn j =
      set_cookie-IsJar to_utc_string now 1 n (flag_text b) l.jar (flag-IsCookie n b hn)
        (flag-IsStripped n b hn) j

  pub keep_done-Flags :
      (a : Bool) (o : Option Text) (l : Listing)
      → IsJar l.jar
      → flag archived_cookie l ≡ o
      → let kept = keep_flag to_utc_string now done_cookie a l in
        IsJar kept.jar
        × (flag done_cookie kept ≡ some (flag_text a))
        × (flag archived_cookie kept ≡ o)
  keep_done-Flags a o l j h = (
    keep_flag-IsJar done_cookie a l done-IsName j,
    flag-keep_flag done_cookie done_cookie a l done-IsName done-IsName j
        ∙ ap (λ t. if t then some (flag_text a) else flag done_cookie l) done-done,
    flag-keep_flag done_cookie archived_cookie a l done-IsName archived-IsName j
        ∙ ap (λ t. if t then some (flag_text a) else flag archived_cookie l) done-archived
        ∙ h,
  )

  pub keep_archived-Flags :
      (a b : Bool) (l : Listing)
      → IsJar l.jar
      → flag done_cookie l ≡ some (flag_text a)
      → Flags (keep_flag to_utc_string now archived_cookie b l) a b
  keep_archived-Flags a b l j h = (
    keep_flag-IsJar archived_cookie b l archived-IsName j,
    flag-keep_flag archived_cookie done_cookie b l archived-IsName done-IsName j
        ∙ ap (λ t. if t then some (flag_text b) else flag done_cookie l) archived-done
        ∙ h,
    flag-keep_flag archived_cookie archived_cookie b l archived-IsName archived-IsName j
        ∙ ap (λ t. if t then some (flag_text b) else flag archived_cookie l) archived-archived,
  )

  flip_flag-keep :
      (n : Text) (a : Bool) (l : Listing)
      → flag n l ≡ some (flag_text a)
      → flip_flag to_utc_string now n l ≡ keep_flag to_utc_string now n (not a) l
  unfolding flip_flag flag_text codes same
  flip_flag-keep n true l h = rw h refl
  flip_flag-keep n false l h = rw h refl

  pub appel_ajax-Flags :
      (a b : Bool) (l : Listing) → Flags l a b → appel_ajax l ≡ list_url (flag_text a) (flag_text b)
  unfolding appel_ajax
  appel_ajax-Flags a b l (j, h, k) = rw (h, k) refl

  -- Where the cookies hold a choice, a change of the checkbox for finished requests turns that
  -- half of it, keeps the other, and loads the table once, from the address of the new choice.
  pub change_done-Flags :
      (a b : Bool) (l : Listing)
      → Flags l a b
      → Flags (change_done to_utc_string now l) (not a) b
        × ((change_done to_utc_string now l).loads
            ≡ list_url (flag_text (not a)) (flag_text b) ∷ l.loads)
  unfolding change_done afficherdemandeajax flag keep_flag
  change_done-Flags a b l (j, h, k) =
      let l0 : Listing = record l { checkbox_already_checked = true } in
      let f : Flags (keep_flag to_utc_string now done_cookie (not a) l0) (not a) b =
        keep_done-Flags (not a) (some (flag_text b)) l0 j k in
      rw (flip_flag-keep done_cookie a l0 h)
        (f, ap (λ u. u ∷ l.loads) (appel_ajax-Flags (not a) b _ f))

  -- The same of the checkbox for archived requests.
  pub change_archived-Flags :
      (a b : Bool) (l : Listing)
      → Flags l a b
      → Flags (change_archived to_utc_string now l) a (not b)
        × ((change_archived to_utc_string now l).loads
            ≡ list_url (flag_text a) (flag_text (not b)) ∷ l.loads)
  unfolding change_archived afficherdemandeajax flag keep_flag
  change_archived-Flags a b l (j, h, k) =
      let l0 : Listing = record l { checkbox_already_checked = true } in
      let f : Flags (keep_flag to_utc_string now archived_cookie (not b) l0) a (not b) =
        keep_archived-Flags a (not b) l0 j h in
      rw (flip_flag-keep archived_cookie b l0 k)
        (f, ap (λ u. u ∷ l.loads) (appel_ajax-Flags a (not b) _ f))
