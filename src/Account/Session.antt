-- ===== src/Account/Session.antt =====
-- frontend/src/shared/api/httpClient.ts (the token), frontend/src/shared/messageCache.ts (its storage)
-- and frontend/src/features/auth/useAuth.ts: the profile and the logout. A function that can throw
-- because localStorage does returns an Option. The preferences plugin is taken not to fail.
use nothingapp.Common.{
  Bool, true, false, not, Option, none, some, [], Str, codes, is_empty, str_eq, starts_with, keep,
  if◌then◌else◌, or_else, is_some, ◌&&◌,
}
use nothingapp.Common.Storage.{
  Items, Storage, lookup, insert, remove, get_item, set_item, remove_item,
}
use nothingapp.Crypto.PeerKeys.{Peers, clear_peer_key_cache}
use nothingapp.Crypto.E2e.Stored.{KeyStore, present, clear_stored_account_key}
use nothingapp.AppLock.Settings.{Device, clear_app_lock_on_logout}

abbrev pub token_key : Str
token_key = codes "auth_token"

abbrev pub cached_profile_key : Str
cached_profile_key = codes "cached_user_profile"

abbrev pub cached_chats_key : Str
cached_chats_key = codes "cached_chats_list"

abbrev pub message_prefix : Str
message_prefix = codes "cached_msgs_"

-- `native` is `isNative()`, `android` what the app lock asks for.
pub record Phone : Type 0 where
  pub native : Bool
  pub android : Bool
  pub local : Storage
  pub prefs : Items

unfoldable pub hydrate_auth_token : Phone → Phone
hydrate_auth_token d =
    if d.native
    then elim (present (lookup token_key d.prefs)) [
      | some v ↦ record d { local = or_else (set_item token_key v d.local) d.local }
      | none ↦ elim (present (or_else (get_item token_key d.local) none)) [
        | none ↦ d
        | some existing ↦ record d { prefs = insert token_key existing d.prefs }
      ]
    ]
    else d

unfoldable pub get_auth_token : Phone → Option (Option Str)
get_auth_token d = get_item token_key d.local

abbrev pub clear_token : Phone → Option Phone
clear_token d = elim (remove_item token_key d.local) [
  | none ↦ none
  | some s ↦
      some (record d { local = s; prefs = if d.native then remove token_key d.prefs else d.prefs })
]

-- An empty token is no token.
unfoldable pub set_auth_token : Option Str → Phone → Option Phone
set_auth_token none d = clear_token d
set_auth_token (some token) d =
    if is_empty token then clear_token d else elim (set_item token_key token d.local) [
      | none ↦ none
      | some s ↦ some (record d {
        local = s;
        prefs = if d.native then insert token_key token d.prefs else d.prefs;
      })
    ]

-- The token's part of `request`: a token of the server that is another one is adopted.
unfoldable pub adopt_token : Option Str → Phone → Option Phone
adopt_token refreshed d = elim (get_auth_token d) [
  | none ↦ none
  | some token ↦ elim (present refreshed) [
    | none ↦ some d
    | some fresh ↦ if str_eq fresh (or_else token []) then some d else set_auth_token (some fresh) d
  ]
]

-- `clearAllCachedMessages`.
unfoldable pub clear_all_cached_messages : Storage → Storage
clear_all_cached_messages s =
    if s.available
    then record s { items = keep (λ e. not (starts_with message_prefix e.0)) s.items }
    else s

abbrev pub drop_item : Str → Storage → Storage
drop_item key s = or_else (remove_item key s) s

-- The profile is a text here, as it is stored.
pub record Session : Type 0 where
  pub phone : Phone
  pub peers : Peers
  pub user : Option Str
  pub loading : Bool
  pub failed : Bool
  pub initialized : Bool

abbrev as_key_store : Phone → KeyStore
as_key_store d = record { native = d.native; local = d.local; prefs = d.prefs }

abbrev as_device : Phone → Device
as_device d = record { android = d.android; local = d.local; prefs = d.prefs }

unfoldable pub clear_key : Phone → Phone
clear_key d =
    let s = clear_stored_account_key (as_key_store d) in
    record d { local = s.local; prefs = s.prefs }

unfoldable pub clear_lock : Phone → Phone
clear_lock d =
    let s = clear_app_lock_on_logout (as_device d) in record d { local = s.local; prefs = s.prefs }

-- What the `finally` of `logout` does to the device once the token is gone.
unfoldable pub scrub : Phone → Phone
unfolding clear_all_cached_messages clear_key clear_lock
scrub d = clear_lock (
    clear_key (record d {
      local =
          clear_all_cached_messages
            (drop_item cached_chats_key (drop_item cached_profile_key d.local));
    }))

abbrev pub fcm_key : Str
fcm_key = codes "fcm_token"

-- `unregisterFCMDevice`, whatever the server answers; none is a throw of localStorage.
unfoldable pub unregister_fcm_device : Phone → Option Phone
unregister_fcm_device d =
    if d.native
    then elim (get_item fcm_key d.local) [
      | none ↦ none
      | some token ↦ elim (present token) [
        | none ↦ some d
        | some t ↦ elim (remove_item fcm_key d.local) [
          | none ↦ none
          | some s ↦ some (record d { local = s })
        ]
      ]
    ]
    else some d

-- `logout`; the answers of the server only decide on the error, and so does a throw while the device
-- is unregistered. A throw of the token's removal ends it there.
unfoldable pub logout : Bool → Session → Session
unfolding scrub set_auth_token unregister_fcm_device
logout server_ok s =
    let unregistered = unregister_fcm_device s.phone in
    let phone = or_else unregistered s.phone in
    let t = record s {
      phone = phone;
      loading = true;
      failed = if is_some unregistered && server_ok then s.failed else true;
    } in
    elim (set_auth_token none phone) [
      | none ↦ t
      | some d ↦ record t {
        phone = scrub d;
        peers = clear_peer_key_cache s.peers;
        user = none;
        loading = false;
        initialized = false;
      }
    ]

-- `refreshProfile`: the answer is none when the request fails.
unfoldable pub refresh_profile : Option Str → Session → Session
refresh_profile none s =
    let cached = or_else (get_item cached_profile_key s.phone.local) none in
    record s {
      user = elim (present cached) [ none ↦ none | some c ↦ s.user ];
      failed = true;
      loading = false;
    }
refresh_profile (some profile) s = record s {
  user = some profile;
  phone = record s.phone {
    local = or_else (set_item cached_profile_key profile s.phone.local) s.phone.local;
  };
  initialized = true;
  failed = false;
  loading = false;
}

-- The effect on mount, up to the request for the profile.
unfoldable pub mount : Session → Session
mount s = elim (present (or_else (get_auth_token s.phone) none)) [
  | none ↦ record s { loading = false }
  | some token ↦ elim (present (or_else (get_item cached_profile_key s.phone.local) none)) [
    | none ↦ s
    | some cached ↦ record s { user = some cached; loading = false; initialized = true }
  ]
]
