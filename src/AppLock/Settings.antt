-- ===== src/AppLock/Settings.antt =====
-- frontend/src/shared/appLock.ts: localStorage and its durable mirror, the native Preferences. The
-- mirror's calls are taken as completed where they start. `Number` and `String` on these values are
-- the parameters `to_number` and `show`: a text is a natural number, or no finite number.
use nothingapp.Common.{
  ℕ, ◌+◌, Bool, true, false, ◌&&◌, not, Option, none, some, List, [], ◌∷◌, Str, codes, str_eq, leb,
  if◌then◌else◌, is_some, or_else,
}
use nothingapp.Common.Storage.{
  Storage, Items, get_item, set_item, remove_item, lookup, insert, remove,
}

abbrev pub key_enabled : Str
key_enabled = codes "app_lock_enabled"

abbrev pub key_timeout : Str
key_timeout = codes "app_lock_timeout_ms"

abbrev pub key_last_active : Str
key_last_active = codes "app_lock_last_active_at"

abbrev pub key_offered : Str
key_offered = codes "app_lock_offered"

abbrev pub mirrored_keys : List Str
mirrored_keys = key_enabled ∷ key_timeout ∷ key_last_active ∷ key_offered ∷ []

abbrev pub default_timeout_ms : ℕ
default_timeout_ms = 300000

-- The device: whether the platform is Android (the native one), its storage and its preferences.
pub record Device : Type 0 where
  pub android : Bool
  pub local : Storage
  pub prefs : Items

-- JavaScript's conversions. A text that is no natural number counts as no finite number: the code
-- writes only natural numbers.
pub record Numbers : Type 0 where
  pub to_number : Str → Option ℕ
  pub show : ℕ → Str

unfoldable pub read : Str → Device → Option Str
read key d = or_else (get_item key d.local) none

-- The first part of `write`: a failure of localStorage is swallowed.
abbrev pub write_local : Str → Option Str → Storage → Storage
write_local key none s = or_else (remove_item key s) s
write_local key (some v) s = or_else (set_item key v s) s

abbrev pub write_prefs : Str → Option Str → Items → Items
write_prefs key none m = remove key m
write_prefs key (some v) m = insert key v m

unfoldable pub write : Str → Option Str → Device → Device
write key v d = record d {
  local = write_local key v d.local;
  prefs = if d.android then write_prefs key v d.prefs else d.prefs;
}

-- The loop of `hydrateAppLockPrefs`; a throw of localStorage ends it.
unfoldable pub hydrate_keys : List Str → Items → Storage → Storage
hydrate_keys [] prefs s = s
hydrate_keys (key ∷ keys) prefs s =
    let stored : Option Storage = elim (lookup key prefs) [
      | none ↦ remove_item key s
      | some v ↦ set_item key v s
    ] in
    let rest = hydrate_keys keys prefs (or_else stored s) in if is_some stored then rest else s

unfoldable pub hydrate_app_lock_prefs : Device → Device
unfolding hydrate_keys
hydrate_app_lock_prefs d =
    if d.android then record d { local = hydrate_keys mirrored_keys d.prefs d.local } else d

abbrev pub is_one : Option Str → Bool
is_one none = false
is_one (some s) = str_eq s (codes "1")

unfoldable pub is_app_lock_enabled : Device → Bool
is_app_lock_enabled d = d.android && is_one (read key_enabled d)

unfoldable pub was_offered : Device → Bool
was_offered d = is_one (read key_offered d)

unfoldable pub mark_offered : Device → Device
mark_offered d = write key_offered (some (codes "1")) d

unfoldable pub clear_app_lock_on_logout : Device → Device
clear_app_lock_on_logout d =
    write key_timeout none
      (write key_offered none (write key_last_active none (write key_enabled none d)))

module _ (n : Numbers) where
  unfoldable pub set_app_lock_enabled : Bool → Device → Device
  set_app_lock_enabled enabled d =
      let d' = write key_enabled (if enabled then some (codes "1") else none) d in
      if enabled && not (is_some (read key_timeout d'))
      then write key_timeout (some (n.show default_timeout_ms)) d'
      else d'

  unfoldable pub get_app_lock_timeout_ms : Device → ℕ
  get_app_lock_timeout_ms d = elim (read key_timeout d) [
    | none ↦ default_timeout_ms
    | some raw ↦ or_else (n.to_number raw) default_timeout_ms
  ]

  unfoldable pub set_app_lock_timeout_ms : ℕ → Device → Device
  set_app_lock_timeout_ms ms d = write key_timeout (some (n.show ms)) d

  unfoldable pub record_last_active : ℕ → Device → Device
  record_last_active now d = write key_last_active (some (n.show now)) d

  -- `now - lastActive >= timeoutMs`, which is negative before the recorded moment.
  unfoldable pub is_lock_expired : Option Str → ℕ → ℕ → Bool
  is_lock_expired none timeout_ms now = true
  is_lock_expired (some raw) timeout_ms now = elim (n.to_number raw) [
    | none ↦ true
    | some last ↦ leb (last + timeout_ms) now
  ]

  unfoldable pub should_lock_now : ℕ → Device → Bool
  should_lock_now now d =
      if is_app_lock_enabled d
      then is_lock_expired (read key_last_active d) (get_app_lock_timeout_ms d) now
      else false
