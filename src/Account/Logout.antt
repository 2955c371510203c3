-- ===== src/Account/Logout.antt =====
-- What the logout of useAuth.ts leaves behind on the device.
use nothingapp.Common.{
  ℕ, ◌≡◌, refl, sym, ap, ◌∙◌, Bool, true, false, not, ◌||◌, Option, none, some, List, [], ◌∷◌, Str,
  str_eq, str_eq_iff, starts_with, any_of, is_some, ◌&&◌, Option-cases, keep, if◌then◌else◌,
  or_else, arith, Bool-cases, inl, inr,
}
use nothingapp.Common.Storage.{Items, Storage, lookup, get_item, remove_item, remove, lookup-remove}
use nothingapp.Crypto.E2e.Stored.{present, stored_account_key}
use nothingapp.AppLock.Settings.{
  key_enabled, key_timeout, key_last_active, key_offered, write, clear_app_lock_on_logout,
}
use nothingapp.Crypto.PeerKeys.{clear_peer_key_cache}
use nothingapp.Composer.Drafts.{draft_key, restored_draft}
use nothingapp.Account.Session.{
  Phone, Session, token_key, cached_profile_key, cached_chats_key, message_prefix, drop_item,
  clear_all_cached_messages, clear_key, clear_lock, scrub, set_auth_token, logout, fcm_key,
  unregister_fcm_device,
}

drop_all : List Str → Storage → Storage
drop_all [] s = s
drop_all (k ∷ ks) s = drop_all ks (drop_item k s)

drop_item_available : (k : Str) (s : Storage) → (drop_item k s).available ≡ s.available
unfolding remove_item
drop_item_available k s = ground arith

lookup-drop_item :
    (k j : Str) (s : Storage)
    → s.available ≡ true
    → lookup j (drop_item k s).items ≡ (if str_eq k j then none else lookup j s.items)
unfolding remove_item
lookup-drop_item k j s up = rw up (lookup-remove k j s.items)

lookup-drop_all :
    (ks : List Str) (j : Str) (s : Storage)
    → s.available ≡ true
    → (lookup j (drop_all ks s).items
        ≡ (if any_of (λ k. str_eq k j) ks then none else lookup j s.items))
      × ((drop_all ks s).available ≡ true)
unfolding drop_all
lookup-drop_all [] j s up = (refl, up)
lookup-drop_all (k ∷ ks) j s up =
    let (found, available) = lookup-drop_all ks j (drop_item k s) (drop_item_available k s ∙ up) in
    (ground (arith, found, lookup-drop_item k j s up), available)

lookup-keep :
    (f : Str → Bool) (j : Str) (m : Items)
    → lookup j (keep (λ e. not (f e.0)) m) ≡ (if f j then none else lookup j m)
unfolding lookup
lookup-keep f j [] = ground arith
lookup-keep f j ((i, v) ∷ m) = elim (Bool-cases (str_eq i j)) [
  | inl same ↦
      let here : f i ≡ f j = ap f ((str_eq_iff i j).0 same) in
      ground (arith, same, here, lookup-keep f j m)
  | inr other ↦ ground (arith, other, lookup-keep f j m)
]

lookup-clear_all :
    (j : Str) (s : Storage)
    → s.available ≡ true
    → (lookup j (clear_all_cached_messages s).items
        ≡ (if starts_with message_prefix j then none else lookup j s.items))
      × ((clear_all_cached_messages s).available ≡ true)
unfolding clear_all_cached_messages
lookup-clear_all j s up = rw up (lookup-keep (starts_with message_prefix) j s.items, refl)

abbrev pub first_keys : List Str
first_keys = cached_profile_key ∷ cached_chats_key ∷ []

abbrev pub last_keys : List Str
last_keys = stored_account_key ∷ key_enabled ∷ key_last_active ∷ key_offered ∷ key_timeout ∷ []

scrub_local :
    (d : Phone)
    → (scrub d).local ≡ drop_all last_keys (clear_all_cached_messages (drop_all first_keys d.local))
unfolding scrub clear_key clear_lock write clear_app_lock_on_logout drop_all
scrub_local d = refl

-- What a key of the storage holds once the token and the rest of the session are cleared.
abbrev pub is_scrubbed : Str → Bool
is_scrubbed j =
    str_eq token_key j
    || any_of (λ k. str_eq k j) first_keys
    || any_of (λ k. str_eq k j) last_keys
    || starts_with message_prefix j

lookup-scrub :
    (j : Str) (d : Phone)
    → d.local.available ≡ true
    → (lookup j (scrub d).local.items ≡ (
        if any_of (λ k. str_eq k j) last_keys
        then none
        else if starts_with message_prefix j
        then none
        else if any_of (λ k. str_eq k j) first_keys
        then none
        else lookup j d.local.items))
      × ((scrub d).local.available ≡ true)
lookup-scrub j d up =
    let (first, up1) = lookup-drop_all first_keys j d.local up in
    let (messages, up2) = lookup-clear_all j (drop_all first_keys d.local) up1 in
    let (last, up3) =
      lookup-drop_all last_keys j (clear_all_cached_messages (drop_all first_keys d.local)) up2 in
    (
      ap (λ s. lookup j s.items) (scrub_local d)
          ∙ last
          ∙ ap (λ o. if any_of (λ k. str_eq k j) last_keys then none else o)
              (messages ∙ ap (λ o. if starts_with message_prefix j then none else o) first),
      ap (λ s. s.available) (scrub_local d) ∙ up3,
    )

-- The device once the token is removed from an available storage.
abbrev without_token : Phone → Phone
without_token d = record d {
  local = record d.local { items = remove token_key d.local.items };
  prefs = if d.native then remove token_key d.prefs else d.prefs;
}

set_auth_token_lem :
    (d : Phone) → d.local.available ≡ true → set_auth_token none d ≡ some (without_token d)
unfolding set_auth_token remove_item
set_auth_token_lem d up = rw up refl

-- Whether the logout unregisters the device: there is a registration, not empty.
abbrev pub has_registration : Phone → Bool
has_registration d = d.native && is_some (present (lookup fcm_key d.local.items))

-- The device once it is unregistered.
abbrev unregistered : Phone → Phone
unregistered d = or_else (unregister_fcm_device d) d

remove_item_lem :
    (k : Str) (s : Storage)
    → s.available ≡ true
    → remove_item k s ≡ some (record s { items = remove k s.items })
unfolding remove_item
remove_item_lem k s up = rw up refl

get_item_lem : (k : Str) (s : Storage) → s.available ≡ true → get_item k s ≡ some (lookup k s.items)
unfolding get_item
get_item_lem k s up = rw up refl

unregister_fcm_device_lem :
    (j : Str) (d : Phone)
    → d.local.available ≡ true
    → (lookup j (unregistered d).local.items
        ≡ (if has_registration d && str_eq fcm_key j then none else lookup j d.local.items))
      × ((unregistered d).local.available ≡ true)
unfolding unregister_fcm_device
unregister_fcm_device_lem j d up = elim (Bool-cases d.native) [
  | inl native ↦ elim (Option-cases (present (lookup fcm_key d.local.items))) [
    | inl nothing ↦ rw (get_item_lem fcm_key d.local up) (rw nothing (rw native (refl, up)))
    | inr (t, found) ↦ rw (get_item_lem fcm_key d.local up) (
        rw found (
          rw (remove_item_lem fcm_key d.local up)
            (rw native (lookup-remove fcm_key j d.local.items, up))))
  ]
  | inr web ↦ rw web (refl, up)
]

logout_lem :
    (server_ok : Bool) (s : Session)
    → s.phone.local.available ≡ true
    → let t = logout server_ok s in
      (t.phone ≡ scrub (without_token (unregistered s.phone)))
      × (t.user ≡ none)
      × (t.loading ≡ false)
      × (t.peers.cache ≡ [])
unfolding logout clear_peer_key_cache
logout_lem server_ok s up =
    rw
      (
        set_auth_token_lem (unregistered s.phone) (unregister_fcm_device_lem [] s.phone up).1,
        logout,
      )
      (refl, refl, refl, refl)

merged :
    (t f l m : Bool) (o u : Option Str)
    → o ≡ (if t then none else u)
    → (if l then none else if m then none else if f then none else o)
      ≡ (if t || f || l || m then none else u)
merged t f l m o u h = ground (arith, h)

-- The end of a session, whatever the server answers: in an available storage exactly these entries
-- are gone: the token, the cached profile, the cached chat list, the cached messages of every chat,
-- the account key and the settings of the app lock, and, in the native app, the registration for
-- push messages unless it is empty; every other entry is as before. No user is logged in then, no
-- public key of a peer is cached, and the spinner is gone.
pub logout_scrubs :
    (server_ok : Bool) (s : Session) (j : Str)
    → s.phone.local.available ≡ true
    → let t = logout server_ok s in
      (lookup j t.phone.local.items ≡ (
        if is_scrubbed j
        then none
        else if has_registration s.phone && str_eq fcm_key j
        then none
        else lookup j s.phone.local.items))
      × (t.user ≡ none)
      × (t.loading ≡ false)
      × (t.peers.cache ≡ [])
logout_scrubs server_ok s j up =
    let (phone, user, loading, peers) = logout_lem server_ok s up in
    let (registration, still_up) = unregister_fcm_device_lem j s.phone up in
    let d = without_token (unregistered s.phone) in
    let (found, available) = lookup-scrub j d still_up in
    let token = lookup-remove token_key j (unregistered s.phone).local.items in
    (
      ap (λ p. lookup j p.local.items) phone
          ∙ found
          ∙ merged (str_eq token_key j) (any_of (λ k. str_eq k j) first_keys)
              (any_of (λ k. str_eq k j) last_keys) (starts_with message_prefix j)
              (lookup j d.local.items) (lookup j (unregistered s.phone).local.items) token
          ∙ ap (λ o. if is_scrubbed j then none else o) registration,
      user,
      loading,
      peers,
    )

draft_kept :
    (chat : ℕ) → (is_scrubbed (draft_key chat) ≡ false) × (str_eq fcm_key (draft_key chat) ≡ false)
unfolding draft_key
draft_kept chat = (refl, refl)

logout_available :
    (server_ok : Bool) (s : Session)
    → s.phone.local.available ≡ true
    → (logout server_ok s).phone.local.available ≡ true
logout_available server_ok s up =
    ap (λ p. p.local.available) (logout_lem server_ok s up).0
    ∙ (lookup-scrub [] (without_token (unregistered s.phone))
        (unregister_fcm_device_lem [] s.phone up).1).1

restored_lem :
    (chat : ℕ) (s : Storage)
    → s.available ≡ true
    → restored_draft chat s ≡ or_else (lookup (draft_key chat) s.items) []
unfolding restored_draft get_item
restored_lem chat s up = rw up refl

-- Drafts survive a logout: with an available storage, the next user of the device who opens a chat
-- of the same id finds the text that the former user had typed there.
pub logout_keeps_drafts :
    (server_ok : Bool) (s : Session) (chat : ℕ)
    → s.phone.local.available ≡ true
    → restored_draft chat (logout server_ok s).phone.local ≡ restored_draft chat s.phone.local
logout_keeps_drafts server_ok s chat up =
    let (found, user, loading, peers) = logout_scrubs server_ok s (draft_key chat) up in
    restored_lem chat (logout server_ok s).phone.local (logout_available server_ok s up)
    ∙ ap (λ o. or_else o [])
        (found ∙ kept (has_registration s.phone) (draft_kept chat).0 (draft_kept chat).1)
    ∙ sym (restored_lem chat s.phone.local up)
  where
    kept :
        {a c : Bool} {o : Option Str} (b : Bool)
        → a ≡ false
        → c ≡ false
        → (if a then none else if b && c then none else o) ≡ o
    kept b e f = ground (arith, e, f)
