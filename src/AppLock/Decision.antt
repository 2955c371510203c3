-- ===== src/AppLock/Decision.antt =====
-- What the settings of the app lock answer after they are written, cleared and hydrated.
use nothingapp.Common.{
  ℕ, ◌∙◌, ◌+◌, ◌≤◌, ◌≡◌, ◌⊎◌, refl, true, false, ◌&&◌, Option, none, some, Str, codes, str_eq, leb,
  if◌then◌else◌, is_some, arith, inl, inr,
}
use nothingapp.Common.Storage.{
  get_item, set_item, remove_item, lookup, lookup-insert, lookup-remove,
}
use nothingapp.AppLock.Settings.{
  Device, Numbers, key_enabled, key_timeout, key_last_active, key_offered, read, write,
  is_app_lock_enabled, was_offered, clear_app_lock_on_logout, is_lock_expired,
  get_app_lock_timeout_ms, should_lock_now, record_last_active, set_app_lock_enabled,
  default_timeout_ms,
}

-- A number that the code writes is read back.
pub record Lawful (n : Numbers) : Type 0 where
  pub number-show : (k : ℕ) → n.to_number (n.show k) ≡ some k

-- The storage takes this write.
abbrev pub Accepts : Str → Str → Device → Type 0
Accepts key v d = is_some (set_item key v d.local) ≡ true

read-write :
    (key other v : Str) (d : Device)
    → Accepts key v d
    → read other (write key (some v) d) ≡ (if str_eq key other then some v else read other d)
unfolding read write get_item set_item
read-write key other v d ok = ground (arith, lookup-insert key other v d.local.items)

read-write-none :
    (key other : Str) (d : Device)
    → d.local.available ≡ true
    → read other (write key none d) ≡ (if str_eq key other then none else read other d)
unfolding read write get_item remove_item
read-write-none key other d up = ground (arith, lookup-remove key other d.local.items)

available-write-none :
    (key : Str) (d : Device) → d.local.available ≡ true → (write key none d).local.available ≡ true
unfolding write remove_item
available-write-none key d up = ground arith

android-write : (key : Str) (v : Option Str) (d : Device) → (write key v d).android ≡ d.android
unfolding write
android-write key none d = refl
android-write key (some v) d = refl

pub record_last_active-android :
    (n : Numbers) (now : ℕ) (d : Device) → (record_last_active n now d).android ≡ d.android
unfolding record_last_active
record_last_active-android n now d = android-write key_last_active (some (n.show now)) d

module _ (n : Numbers) (l : Lawful n) where
  -- After the last active moment is recorded the lock decision is about that moment: with the lock
  -- on, the app locks exactly from `last + timeout` on, whatever the timeout; with the lock off it
  -- never does. The storage takes the write.
  pub should_lock_now-record_last_active :
      (d : Device) (last now : ℕ)
      → Accepts key_last_active (n.show last) d
      → let d' = record_last_active n last d in
        should_lock_now n now d'
        ≡ (is_app_lock_enabled d && leb (last + get_app_lock_timeout_ms n d) now)
  unfolding should_lock_now record_last_active is_app_lock_enabled is_lock_expired
      get_app_lock_timeout_ms
  should_lock_now-record_last_active d last now ok = ground (
    arith,
    read-write key_last_active key_enabled (n.show last) d ok,
    read-write key_last_active key_last_active (n.show last) d ok,
    read-write key_last_active key_timeout (n.show last) d ok,
    l.number-show last,
    android-write key_last_active (some (n.show last)) d,
  )

  -- With no recorded moment, or an unreadable one, an app whose lock is on locks at once.
  pub should_lock_now_unknown :
      (d : Device) (now : ℕ)
      → is_app_lock_enabled d ≡ true
      → (read key_last_active d ≡ none)
        ⊎ ((raw : Str) × (read key_last_active d ≡ some raw) × (n.to_number raw ≡ none))
      → should_lock_now n now d ≡ true
  unfolding should_lock_now is_lock_expired
  should_lock_now_unknown d now on (inl missing) = ground arith
  should_lock_now_unknown d now on (inr (raw, found, odd)) = ground arith

  -- The lock decision only grows with time.
  pub should_lock_now_mono :
      (d : Device) (now later : ℕ)
      → now ≤ later
      → should_lock_now n now d ≡ true
      → should_lock_now n later d ≡ true
  unfolding should_lock_now is_lock_expired
  should_lock_now_mono d now later h e = ground arith

  -- Turning the lock on sets the default timeout where none is chosen, and keeps a chosen one.
  pub set_app_lock_enabled-timeout :
      (d : Device)
      → Accepts key_enabled (codes "1") d
      → Accepts key_timeout (n.show default_timeout_ms) (write key_enabled (some (codes "1")) d)
      → (is_app_lock_enabled (set_app_lock_enabled n true d) ≡ d.android)
        × (get_app_lock_timeout_ms n (set_app_lock_enabled n true d) ≡ get_app_lock_timeout_ms n d)
        × (is_some (read key_timeout (set_app_lock_enabled n true d)) ≡ true)
  unfolding is_app_lock_enabled get_app_lock_timeout_ms set_app_lock_enabled
  set_app_lock_enabled-timeout d ok ok' =
      let d' = write key_enabled (some (codes "1")) d in
      ground (
        arith,
        read-write key_enabled key_enabled (codes "1") d ok,
        read-write key_enabled key_timeout (codes "1") d ok,
        read-write key_timeout key_enabled (n.show default_timeout_ms) d' ok',
        read-write key_timeout key_timeout (n.show default_timeout_ms) d' ok',
        l.number-show default_timeout_ms,
        android-write key_enabled (some (codes "1")) d,
        android-write key_timeout (some (n.show default_timeout_ms)) d',
      )

lookup-write-none :
    (key other : Str) (d : Device)
    → d.android ≡ true
    → lookup other (write key none d).prefs
      ≡ (if str_eq key other then none else lookup other d.prefs)
unfolding write
lookup-write-none key other d android = ground (arith, lookup-remove key other d.prefs)

module _ (d : Device) (up : d.local.available ≡ true) where
  read-clear :
      (k : Str)
      → read k (clear_app_lock_on_logout d) ≡ (
          if str_eq key_timeout k
          then none
          else if str_eq key_offered k
          then none
          else if str_eq key_last_active k
          then none
          else if str_eq key_enabled k
          then none
          else read k d)
  unfolding clear_app_lock_on_logout
  read-clear k =
      let d1 = write key_enabled none d in
      let d2 = write key_last_active none d1 in
      let d3 = write key_offered none d2 in
      let u1 = available-write-none key_enabled d up in
      let u2 = available-write-none key_last_active d1 u1 in
      let u3 = available-write-none key_offered d2 u2 in
      rw (read-write-none key_timeout k d3 u3) (
        rw (read-write-none key_offered k d2 u2)
          (rw (read-write-none key_last_active k d1 u1) (rw (read-write-none key_enabled k d up))))

  lookup-clear :
      (k : Str)
      → d.android ≡ true
      → lookup k (clear_app_lock_on_logout d).prefs ≡ (
          if str_eq key_timeout k
          then none
          else if str_eq key_offered k
          then none
          else if str_eq key_last_active k
          then none
          else if str_eq key_enabled k
          then none
          else lookup k d.prefs)
  unfolding clear_app_lock_on_logout
  lookup-clear k a =
      let d1 = write key_enabled none d in
      let d2 = write key_last_active none d1 in
      let d3 = write key_offered none d2 in
      let a1 = android-write key_enabled none d ∙ a in
      let a2 = android-write key_last_active none d1 ∙ a1 in
      let a3 = android-write key_offered none d2 ∙ a2 in
      rw (lookup-write-none key_timeout k d3 a3) (
        rw (lookup-write-none key_offered k d2 a2) (
          rw (lookup-write-none key_last_active k d1 a1)
            (rw (lookup-write-none key_enabled k d a))))

-- After the logout scrub on Android, with the storage available, the lock is off, nothing was
-- offered, and neither the storage nor the preferences know a last active moment or a timeout, so
-- that the next start hydrates none of them.
pub clear_app_lock_on_logout-clears :
    (d : Device)
    → d.local.available ≡ true
    → d.android ≡ true
    → let d' = clear_app_lock_on_logout d in
      (is_app_lock_enabled d' ≡ false)
      × (was_offered d' ≡ false)
      × (read key_last_active d' ≡ none)
      × (read key_timeout d' ≡ none)
      × (lookup key_enabled d'.prefs ≡ none)
      × (lookup key_last_active d'.prefs ≡ none)
      × (lookup key_offered d'.prefs ≡ none)
      × (lookup key_timeout d'.prefs ≡ none)
unfolding is_app_lock_enabled was_offered
clear_app_lock_on_logout-clears d up android = (
  ground (arith, read-clear d up key_enabled),
  ground (arith, read-clear d up key_offered),
  read-clear d up key_last_active,
  read-clear d up key_timeout,
  lookup-clear d up key_enabled android,
  lookup-clear d up key_last_active android,
  lookup-clear d up key_offered android,
  lookup-clear d up key_timeout android,
)
