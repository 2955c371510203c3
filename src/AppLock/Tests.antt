-- ===== src/AppLock/Tests.antt =====
-- The theorems on the app lock at concrete devices. Numbers are written in unary.
use nothingapp.Common.{
  ℕ, ◌+◌, ◌≡◌, refl, true, false, ◌&&◌, Option, none, some, [], ◌∷◌, Str, codes, leb,
}
use nothingapp.Common.Storage.{insert, set_item}
use nothingapp.AppLock.Settings.{
  Device, Numbers, key_enabled, key_timeout, is_app_lock_enabled, get_app_lock_timeout_ms,
}
use nothingapp.AppLock.Provider.{Lock, to_background, to_foreground, set_timeout, run}
use nothingapp.AppLock.Decision.{Lawful}
use nothingapp.AppLock.Guard.{run_locked, away}

-- A number is shown as one code unit, and only such a text is a number.
abbrev single : Str → Option ℕ
single (n ∷ []) = some n
single _ = none

abbrev numbers : Numbers
numbers = record { to_number = single; show = λ n. n ∷ [] }

numbers-Lawful : Lawful numbers
numbers-Lawful = record { number-show = λ k. refl }

abbrev phone : Device
phone = record {
  android = true;
  local = record {
    items = (key_enabled, codes "1") ∷ (key_timeout, 100 ∷ []) ∷ [];
    available = true;
    quota = 10000;
  };
  prefs = (key_enabled, codes "1") ∷ [];
}

abbrev locked_app : Lock
locked_app = record { device = phone; locked = true; enabled = true; timeout_ms = 100 }

abbrev open_app : Lock
open_app = record { device = phone; locked = false; enabled = true; timeout_ms = 100 }

run_locked_example :
    (run numbers (to_background 5 ∷ set_timeout 900 ∷ to_foreground 6 ∷ []) locked_app).locked
    ≡ true
run_locked_example =
    run_locked numbers (to_background 5 ∷ set_timeout 900 ∷ to_foreground 6 ∷ []) locked_app
      (refl, (refl, (refl, tt))) refl

away_example :
    (run numbers (to_background 900 ∷ to_foreground 1100 ∷ []) open_app).locked
    ≡ (is_app_lock_enabled phone && leb (900 + get_app_lock_timeout_ms numbers phone) 1100)
unfolding set_item insert
away_example = away numbers numbers-Lawful open_app 900 1100 refl refl refl
