-- ===== src/Updates/Dismissal.antt =====
-- What a dismissed update does at the next check.
use nothingapp.Common.{
  ℕ, ◌≡◌, ◌∙◌, ap, ◌<◌, ◌==◌, ◌&&◌, not, refl, true, false, Option, some, arith, if◌then◌else◌, leb,
  Bool-cases, inl, inr,
}
use nothingapp.Updates.Updater.{
  AppRelease, up_to_date, available, Updater, states_equal, set_state_if_different, latest,
  is_mandatory, judge, check_release, check_with, perform_check, check_now, dismiss, same_version,
}

dismiss-fields :
    (s : Updater) (r : AppRelease) (code : ℕ)
    → s.state ≡ available r code false
    → ((dismiss s).native ≡ s.native)
      × ((dismiss s).current_version ≡ s.current_version)
      × ((dismiss s).dismissed_version ≡ some r.version_code)
unfolding dismiss
dismiss-fields s r code shown = rw shown (refl, refl, refl)

-- A check that finds a newer release, seen from the state in which a check begins.
check_release-check_now :
    (t : Updater) (q : AppRelease) (code now : ℕ)
    → code < q.version_code
    → (check_release code (latest (some q)) now (check_now t)).state ≡ (
        if not (is_mandatory code q) && same_version t.dismissed_version q.version_code
        then up_to_date code
        else available q code (is_mandatory code q))
unfolding check_release check_now set_state_if_different judge states_equal
check_release-check_now t q code now newer =
    let later : leb q.version_code code ≡ false = ground arith in
    elim (Bool-cases
      (not (is_mandatory code q) && same_version t.dismissed_version q.version_code)) [
        | inl hidden ↦ rw (later, hidden) refl
        | inr shown ↦ rw (later, shown) refl
      ]

-- A soft update that is dismissed stays away until another release ships: the next check, whatever
-- newer release it finds, reports the app as up to date if the release is the dismissed one and
-- still not mandatory, and offers it otherwise.
pub dismiss-perform_check :
    (s : Updater) (r q : AppRelease) (code now : ℕ) (version : Option ℕ)
    → s.native ≡ true
    → s.state ≡ available r code false
    → s.current_version ≡ some code
    → code < q.version_code
    → (perform_check version (latest (some q)) now (check_now (dismiss s))).state ≡ (
        if not (is_mandatory code q) && (r.version_code == q.version_code)
        then up_to_date code
        else available q code (is_mandatory code q))
unfolding perform_check check_with check_now
dismiss-perform_check s r q code now version native shown known newer =
    let (n, c, d) = dismiss-fields s r code shown in
    let u = dismiss s in
    ap (λ x. (check_with x u.current_version version (latest (some q)) now (check_now u)).state)
      (n ∙ native)
    ∙ ap (λ x. (check_with true x version (latest (some q)) now (check_now u)).state) (c ∙ known)
    ∙ check_release-check_now u q code now newer
    ∙ ap
        (λ x.
          if not (is_mandatory code q) && same_version x q.version_code
          then up_to_date code
          else available q code (is_mandatory code q))
        d
