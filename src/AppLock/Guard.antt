-- ===== src/AppLock/Guard.antt =====
-- The lock of the provider in every run: what unlocks it, and what leaving the app does.
use nothingapp.Common.{
  ℕ, ◌+◌, ◌≤◌, ◌≡◌, refl, Bool, true, false, ◌&&◌, List, [], ◌∷◌, All, arith, leb, ◌∙◌,
}
use nothingapp.AppLock.Settings.{
  Numbers, key_last_active, is_app_lock_enabled, get_app_lock_timeout_ms, should_lock_now,
}
use nothingapp.AppLock.Provider.{
  Lock, Event, to_background, to_foreground, unlock, enable, disable, set_timeout, mount, step, run,
}
use nothingapp.AppLock.Decision.{
  Lawful, Accepts, should_lock_now-record_last_active, should_lock_now_mono,
  record_last_active-android,
}

-- The events other than the user's verification on the lock screen and turning the lock off.
abbrev pub keeps_lock : Event → Bool
keeps_lock (unlock now) = false
keeps_lock disable = false
keeps_lock _ = true

-- Leaving and entering the app.
abbrev pub is_app_event : Event → Bool
is_app_event (to_background now) = true
is_app_event (to_foreground now) = true
is_app_event _ = false

module _ (n : Numbers) where
  step_locked :
      (e : Event) (s : Lock) → keeps_lock e ≡ true → s.locked ≡ true → (step n e s).locked ≡ true
  unfolding step
  step_locked (to_background now) s h k = ground arith
  step_locked (to_foreground now) s h k = ground arith
  step_locked (enable verified now) s h k = ground arith
  step_locked (set_timeout ms) s h k = ground arith
  step_locked (unlock now) s h k = cc
  step_locked disable s h k = cc

  -- A locked app stays locked whatever happens, until the lock screen unlocks it or the lock is
  -- turned off.
  pub run_locked :
      (es : List Event) (s : Lock)
      → All (λ e. keeps_lock e ≡ true) es
      → s.locked ≡ true
      → (run n es s).locked ≡ true
  unfolding run
  run_locked [] s h k = k
  run_locked (e ∷ es) s h k = run_locked es (step n e s) h.1 (step_locked e s h.0 k)

  step_stamp :
      (e : Event) (s : Lock)
      → is_app_event e ≡ true
      → s.locked ≡ true
      → ((step n e s).locked ≡ true) × ((step n e s).device ≡ s.device)
  unfolding step
  step_stamp (to_background now) s h k = ground arith
  step_stamp (to_foreground now) s h k = ground arith
  step_stamp (enable verified now) s h k = cc
  step_stamp (set_timeout ms) s h k = cc
  step_stamp (unlock now) s h k = cc
  step_stamp disable s h k = cc

  run_stamp :
      (es : List Event) (s : Lock)
      → All (λ e. is_app_event e ≡ true) es
      → s.locked ≡ true
      → ((run n es s).locked ≡ true) × ((run n es s).device ≡ s.device)
  unfolding run
  run_stamp [] s h k = (k, refl)
  run_stamp (e ∷ es) s h k =
      let (still, same) = step_stamp e s h.0 k in
      let (locked, device) = run_stamp es (step n e s) h.1 still in (locked, device ∙ same)

module _ (n : Numbers) (l : Lawful n) where
  -- Leaving and entering the app refreshes no activity stamp while it is locked: an app on Android
  -- that was locked because its time was up is locked again when it is killed and started at any
  -- later time.
  pub relaunch_locked :
      (es : List Event) (s : Lock) (now later : ℕ)
      → All (λ e. is_app_event e ≡ true) es
      → s.locked ≡ true
      → s.device.android ≡ true
      → should_lock_now n now s.device ≡ true
      → now ≤ later
      → (mount n later (run n es s).device).locked ≡ true
  unfolding mount
  relaunch_locked es s now later h k android due order =
      let same = (run_stamp n es s h k).1 in
      rw same (ground (arith, should_lock_now_mono n l s.device now later order due))

  -- An unlocked app on Android that is left at one moment and entered at another is locked exactly
  -- when the lock is on and the timeout has passed in between; the storage takes the stamp.
  pub away :
      (s : Lock) (left entered : ℕ)
      → s.locked ≡ false
      → s.device.android ≡ true
      → Accepts key_last_active (n.show left) s.device
      → (run n (to_background left ∷ to_foreground entered ∷ []) s).locked
        ≡ (is_app_lock_enabled s.device && leb (left + get_app_lock_timeout_ms n s.device) entered)
  unfolding run step
  away s left entered free android ok = ground (
    arith,
    should_lock_now-record_last_active n l s.device left entered ok,
    record_last_active-android n left s.device,
  )
