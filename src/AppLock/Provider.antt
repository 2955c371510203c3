-- ===== src/AppLock/Provider.antt =====
-- frontend/src/features/applock/AppLockProvider.tsx: the state machine of the lock. Each event of
-- the app comes with the clock's time where the code reads it.
use nothingapp.Common.{ℕ, Bool, true, false, ◌&&◌, List, [], ◌∷◌, if◌then◌else◌}
use nothingapp.AppLock.Settings.{
  Device, Numbers, should_lock_now, record_last_active, set_app_lock_enabled,
  set_app_lock_timeout_ms, is_app_lock_enabled, get_app_lock_timeout_ms,
}

pub record Lock : Type 0 where
  pub device : Device
  pub locked : Bool
  pub enabled : Bool
  pub timeout_ms : ℕ

-- `enable` carries the answer of the biometric prompt; `unlock` is called by the lock screen once
-- the user is verified.
pub data Event : Type 0 where
  to_background to_foreground : ℕ → Event
  unlock : ℕ → Event
  enable : Bool → ℕ → Event
  disable : Event
  set_timeout : ℕ → Event

module _ (n : Numbers) where
  unfoldable pub mount : ℕ → Device → Lock
  mount now d = record {
    device = d;
    locked = d.android && should_lock_now n now d;
    enabled = is_app_lock_enabled d;
    timeout_ms = get_app_lock_timeout_ms n d;
  }

  -- The listener of `appStateChange`, which is registered on Android only.
  unfoldable pub on_app_state_change : Bool → ℕ → Lock → Lock
  on_app_state_change is_active now s =
      if s.device.android
      then if is_active
        then if should_lock_now n now s.device then record s { locked = true } else s
        else if s.locked
        then s
        else record s { device = record_last_active n now s.device }
      else s

  unfoldable pub step : Event → Lock → Lock
  unfolding on_app_state_change
  step (to_background now) s = on_app_state_change false now s
  step (to_foreground now) s = on_app_state_change true now s
  step (unlock now) s = record s { device = record_last_active n now s.device; locked = false }
  step (enable verified now) s =
      let d = record_last_active n now (set_app_lock_enabled n true s.device) in
      if verified
      then record s { device = d; enabled = true; timeout_ms = get_app_lock_timeout_ms n d }
      else s
  step disable s = record s {
    device = set_app_lock_enabled n false s.device;
    enabled = false;
    locked = false;
  }
  step (set_timeout ms) s = record s {
    device = set_app_lock_timeout_ms n ms s.device;
    timeout_ms = ms;
  }

  unfoldable pub run : List Event → Lock → Lock
  run [] s = s
  run (e ∷ es) s = run es (step e s)
