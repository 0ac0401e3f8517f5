-- ===== src/Filters/Events.antt =====
-- Sequences of changes of the checkboxes and of loads of the table.
use cidemis.Base.{
  ℕ, inl, inr, Bool-cases, arith, ◌≡◌, refl, Bool, true, false, not, Option, none, some, List, [],
  ◌∷◌, Text,
}
use cidemis.Browser.{Element, on_id, at_first, set_disabled}
use cidemis.Sending.Waiting.{First, IsDisabled, First-at_first}
use cidemis.Cookies.Assign.{IsJar}
use cidemis.Filters.{
  Listing, done_cookie, archived_cookie, flag_text, flag, table_loaded, keep_flag, init_flag,
  init_flags, change_done, change_archived, afficherdemandeajax, flip_flag, checked,
}
use cidemis.Filters.Toggles.{
  Flags, keep_done-Flags, keep_archived-Flags, change_done-Flags, change_archived-Flags,
}

pub data Event : Type 0 where
  done_changed archived_changed loaded : Event

-- Whether the requests of a kind are shown after the events.
abbrev pub done_after : List Event → Bool → Bool
done_after [] a = a
done_after (done_changed ∷ es) a = done_after es (not a)
done_after (_ ∷ es) a = done_after es a

abbrev pub archived_after : List Event → Bool → Bool
archived_after [] b = b
archived_after (archived_changed ∷ es) b = archived_after es (not b)
archived_after (_ ∷ es) b = archived_after es b

-- A choice that a cookie may hold.
abbrev pub choice_text : Option Bool → Option Text
choice_text none = none
choice_text (some a) = some (flag_text a)

abbrev pub or_false : Option Bool → Bool
or_false none = false
or_false (some a) = a

table_loaded-Flags : (a b : Bool) (l : Listing) → Flags l a b → Flags (table_loaded l) a b
unfolding table_loaded flag
table_loaded-Flags a b l f = elim (Bool-cases l.checkbox_already_checked) [
  | inl h ↦ rw h f
  | inr h ↦ rw h f
]

module _ (to_utc_string : ℕ → Text) (now : ℕ) where
  unfoldable pub step : Event → Listing → Listing
  step done_changed l = change_done to_utc_string now l
  step archived_changed l = change_archived to_utc_string now l
  step loaded l = table_loaded l

  unfoldable pub run : List Event → Listing → Listing
  run [] l = l
  run (e ∷ es) l = run es (step e l)

  run-Flags :
      (es : List Event) (a b : Bool) (l : Listing)
      → Flags l a b
      → Flags (run es l) (done_after es a) (archived_after es b)
  unfolding run step
  run-Flags [] a b l f = f
  run-Flags (done_changed ∷ es) a b l f =
      run-Flags es (not a) b _ (change_done-Flags to_utc_string now a b l f).0
  run-Flags (archived_changed ∷ es) a b l f =
      run-Flags es a (not b) _ (change_archived-Flags to_utc_string now a b l f).0
  run-Flags (loaded ∷ es) a b l f = run-Flags es a b _ (table_loaded-Flags a b l f)

  init_flag-archived :
      (a : Bool) (b : Option Bool) (l : Listing)
      → IsJar l.jar
      → flag done_cookie l ≡ some (flag_text a)
      → flag archived_cookie l ≡ choice_text b
      → Flags (init_flag to_utc_string now archived_cookie l) a (or_false b)
  unfolding init_flag
  init_flag-archived a none l j h k =
      rw (k, init_flag) (keep_archived-Flags to_utc_string now a false l j h)
  init_flag-archived a (some b) l j h k = rw (k, init_flag) (j, h, k)

  init_flag-done :
      (a : Option Bool) (o : Option Text) (l : Listing)
      → IsJar l.jar
      → flag done_cookie l ≡ choice_text a
      → flag archived_cookie l ≡ o
      → let l' = init_flag to_utc_string now done_cookie l in
        IsJar l'.jar
        × (flag done_cookie l' ≡ some (flag_text (or_false a)))
        × (flag archived_cookie l' ≡ o)
  unfolding init_flag
  init_flag-done none o l j h k =
      rw (h, init_flag) (keep_done-Flags to_utc_string now false o l j k)
  init_flag-done (some a) o l j h k = rw (h, init_flag) (j, h, k)

  -- If the page opens with cookies that hold a choice for the two checkboxes or are not set
  -- (which counts as not shown), then after any changes of the checkboxes and any loads of the
  -- table the cookies hold the choice that the changes make of the first one.
  pub run-init_flags :
      (es : List Event) (a b : Option Bool) (l : Listing)
      → IsJar l.jar
      → flag done_cookie l ≡ choice_text a
      → flag archived_cookie l ≡ choice_text b
      → Flags
          (run es (init_flags to_utc_string now l))
          (done_after es (or_false a))
          (archived_after es (or_false b))
  unfolding init_flags
  run-init_flags es a b l j h k =
      let (j', h', k') = init_flag-done a (choice_text b) l j h k in
      run-Flags es (or_false a) (or_false b) _ (init_flag-archived (or_false a) b _ j' h' k')

both_disabled :
    (b : Bool) (es : List Element) → First (λ e. e.disabled ≡ b) (at_first (set_disabled b) es)
unfolding set_disabled
both_disabled b es = First-at_first (λ e. e.disabled ≡ b) (set_disabled b) es (λ e. refl)

module _ (to_utc_string : ℕ → Text) (now : ℕ) where
  flip_flag-checked :
      (name : Text) (l : Listing)
      → (flip_flag to_utc_string now name l).checkbox_already_checked ≡ l.checkbox_already_checked
  unfolding flip_flag keep_flag
  flip_flag-checked name l = ground arith

  -- From a change of the checkbox for finished requests until the table has been loaded neither
  -- checkbox can be used; after that both can.
  pub change_done-table_loaded :
      (l : Listing)
      → let l' = change_done to_utc_string now l in
        IsDisabled true l'.world "#affichertermine"
        × IsDisabled true l'.world "#afficherarchive"
        × IsDisabled false (table_loaded l').world "#affichertermine"
        × IsDisabled false (table_loaded l').world "#afficherarchive"
  unfolding change_done table_loaded on_id afficherdemandeajax
  change_done-table_loaded l = (
    both_disabled true _,
    both_disabled true _,
    rw (flip_flag-checked done_cookie (checked to_utc_string now l)) (both_disabled false _),
    rw (flip_flag-checked done_cookie (checked to_utc_string now l)) (both_disabled false _),
  )
