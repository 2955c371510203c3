-- ===== src/Crypto/E2e/Stored.antt =====
-- The persistence of the account key in e2e.ts: localStorage and, on a native platform, the
-- preferences.
use nothingapp.Common.{
  ℕ, ◌≡◌, ◌∙◌, ap, refl, Bool, true, false, Option, none, some, Str, codes, is_empty, or_else,
  length, if◌then◌else◌, arith, str_eq_refl, Bool-cases, inl, inr,
}
use nothingapp.Common.Storage.{
  Items, Storage, lookup, insert, remove, get_item, set_item, remove_item, lookup-insert_self,
  lookup-remove, get_item-set_item, get_item-remove_item,
}
use nothingapp.Crypto.Platform.{IsBytes, CryptoKey, Platform, Lawful, Result, ok, err}
use nothingapp.Crypto.Async.{Async, ◌>>=◌}
use nothingapp.Crypto.E2e.{b64encode, b64decode, import_account_key}
use nothingapp.Crypto.E2e.Base64.{b64decode-b64encode, b64encode_nonempty}
use nothingapp.Crypto.E2e.Vault.{account_key_of}

abbrev pub stored_account_key : Str
stored_account_key = codes "account_key_b64"

pub record KeyStore : Type 0 where
  pub native : Bool
  pub local : Storage
  pub prefs : Items

-- A failure of either storage is swallowed.
abbrev pub write_key : Str → KeyStore → KeyStore
write_key b64 s = record s {
  local = or_else (set_item stored_account_key b64 s.local) s.local;
  prefs = if s.native then insert stored_account_key b64 s.prefs else s.prefs;
}

abbrev pub clear_stored_account_key : KeyStore → KeyStore
clear_stored_account_key s = record s {
  local = or_else (remove_item stored_account_key s.local) s.local;
  prefs = if s.native then remove stored_account_key s.prefs else s.prefs;
}

-- A missing value and an empty one are the same to the code.
abbrev pub present : Option Str → Option Str
present none = none
present (some v) = if is_empty v then none else some v

-- On a device that has the key in localStorage only, the preferences get it.
abbrev pub mirror_key : Option Str → KeyStore → KeyStore
mirror_key none s = s
mirror_key (some existing) s = record s { prefs = insert stored_account_key existing s.prefs }

abbrev pub hydrate_from : Option Str → KeyStore → KeyStore
hydrate_from (some v) s = record s {
  local = or_else (set_item stored_account_key v s.local) s.local;
}
hydrate_from none s = mirror_key (present (or_else (get_item stored_account_key s.local) none)) s

unfoldable pub hydrate_account_key : KeyStore → KeyStore
hydrate_account_key s =
    if s.native then hydrate_from (present (lookup stored_account_key s.prefs)) s else s

present_full : (v : Str) → is_empty v ≡ false → present (some v) ≡ some v
present_full v h = rw h refl

hydrate_account_key_lem :
    (u : KeyStore) (v : Str) (r : Storage)
    → u.native ≡ true
    → lookup stored_account_key u.prefs ≡ some v
    → is_empty v ≡ false
    → set_item stored_account_key v u.local ≡ some r
    → get_item stored_account_key (hydrate_account_key u).local ≡ some (some v)
unfolding hydrate_account_key
hydrate_account_key_lem u v r native there full taken =
    ap
      (λ b.
        get_item stored_account_key
          (if b then hydrate_from (present (lookup stored_account_key u.prefs)) u else u).local)
      native
    ∙ ap (λ o. get_item stored_account_key (hydrate_from (present o) u).local) there
    ∙ ap (λ o. get_item stored_account_key (hydrate_from o u).local) (present_full v full)
    ∙ ap (λ o. get_item stored_account_key (or_else o u.local)) taken
    ∙ get_item-set_item stored_account_key v u.local r taken

module _ (p : Platform) where
  -- It throws when the key cannot be exported, before anything is written.
  unfoldable pub save_account_key : CryptoKey → KeyStore → Result KeyStore
  save_account_key k s = elim (p.export_raw k) [
    | err e ↦ err e
    | ok raw ↦ ok (write_key (b64encode p raw) s)
  ]

  unfoldable pub decode_key : Str → Async CryptoKey
  decode_key b64 = do raw ← b64decode p b64; import_account_key p raw

  abbrev pub key_or_none : Result CryptoKey → Option CryptoKey
  key_or_none (ok k) = some k
  key_or_none (err e) = none

  abbrev decode_present : Option Str → ℕ → Option CryptoKey
  decode_present none w = none
  decode_present (some b64) w = key_or_none (decode_key b64 w).0

  -- The outer none is a throw of localStorage; a corrupt key is reported as none.
  abbrev load_from : Option (Option Str) → ℕ → Option (Option CryptoKey)
  load_from none w = none
  load_from (some v) w = some (decode_present (present v) w)

  unfoldable pub load_stored_account_key : KeyStore → ℕ → Option (Option CryptoKey)
  load_stored_account_key s w = load_from (get_item stored_account_key s.local) w

  module _ (l : Lawful p) (k : CryptoKey) (hb : IsBytes k.handle) (n : length k.handle ≡ 32) where
    decode_key-b64encode :
        (w : ℕ) → decode_key (b64encode p k.handle) w ≡ (ok (account_key_of k.handle), w)
    unfolding decode_key import_account_key
    decode_key-b64encode w =
        rw (b64decode-b64encode p l k.handle w hb) (rw (l.import_lem k.handle true true n) refl)

    load_from-b64encode :
        (w : ℕ)
        → load_from (some (some (b64encode p k.handle))) w ≡ some (some (account_key_of k.handle))
    load_from-b64encode w =
        ap (λ o. some (decode_present o w))
          (present_full (b64encode p k.handle) (b64encode_nonempty p l k.handle 31 n))
        ∙ ap (λ r. some (key_or_none r.0)) (decode_key-b64encode w)

    -- On a native platform, an exportable account key of 32 bytes that is saved, with the storage
    -- taking it, is loaded again with the same material, and is exportable; so it is when the
    -- storage was lost since, once the preferences are hydrated into a storage that takes the key.
    pub load-save :
        (s : KeyStore) (kept lost restored : Storage) (w : ℕ)
        → k.extractable ≡ true
        → s.native ≡ true
        → set_item stored_account_key (b64encode p k.handle) s.local ≡ some kept
        → set_item stored_account_key (b64encode p k.handle) lost ≡ some restored
        → (t : KeyStore) × (save_account_key k s ≡ ok t)
          × (load_stored_account_key t w ≡ some (some (account_key_of k.handle)))
          × (load_stored_account_key (hydrate_account_key (record t { local = lost })) w
              ≡ some (some (account_key_of k.handle)))
    unfolding save_account_key load_stored_account_key hydrate_account_key
    load-save s kept lost restored w ext native taken again =
        let b64 = b64encode p k.handle in
        let t = write_key b64 s in
        let there : lookup stored_account_key t.prefs ≡ some b64 =
          ap
            (λ b.
              lookup stored_account_key
                (if b then insert stored_account_key b64 s.prefs else s.prefs))
            native
          ∙ lookup-insert_self stored_account_key b64 s.prefs in
        (
          t,
          rw (l.export_lem k ext, save_account_key) refl,
          ap (λ o. load_from (get_item stored_account_key (or_else o s.local)) w) taken
              ∙ ap (λ o. load_from o w)
                  (get_item-set_item stored_account_key b64 s.local kept taken)
              ∙ load_from-b64encode w,
          ap (λ o. load_from o w)
                (hydrate_account_key_lem (record t { local = lost }) b64 restored native there
                  (b64encode_nonempty p l k.handle 31 n) again)
              ∙ load_from-b64encode w,
        )

mirror_key-local : (o : Option Str) (s : KeyStore) → (mirror_key o s).local ≡ s.local
mirror_key-local none s = refl
mirror_key-local (some v) s = refl

hydrate_account_key-unset :
    (u : KeyStore)
    → (if u.native then lookup stored_account_key u.prefs else none) ≡ none
    → (hydrate_account_key u).local ≡ u.local
unfolding hydrate_account_key
hydrate_account_key-unset u unset = elim (Bool-cases u.native) [
  | inr web ↦
      ap
        (λ b. (if b then hydrate_from (present (lookup stored_account_key u.prefs)) u else u).local)
        web
  | inl native ↦
      let gone : lookup stored_account_key u.prefs ≡ none = ground arith in
      ap
        (λ b. (if b then hydrate_from (present (lookup stored_account_key u.prefs)) u else u).local)
        native
      ∙ ap (λ o. (hydrate_from (present o) u).local) gone
      ∙ mirror_key-local _ u
]

cleared_prefs :
    (native : Bool) (m : Items)
    → (if native
        then lookup stored_account_key (if native then remove stored_account_key m else m)
        else none)
      ≡ none
cleared_prefs false m = refl
cleared_prefs true m =
    lookup-remove stored_account_key stored_account_key m
    ∙ ap (λ b. if b then none else lookup stored_account_key m) (str_eq_refl stored_account_key)

-- After the logout scrub, with a storage that lets the key be removed, no key is loaded, nor after
-- the next hydration, on the web or on a native platform.
pub load-clear :
    (p : Platform) (s : KeyStore) (emptied : Storage) (w : ℕ)
    → remove_item stored_account_key s.local ≡ some emptied
    → let t = clear_stored_account_key s in
      (load_stored_account_key p t w ≡ some none)
      × (load_stored_account_key p (hydrate_account_key t) w ≡ some none)
unfolding load_stored_account_key
load-clear p s emptied w gone =
    let t = clear_stored_account_key s in
    let none_left : get_item stored_account_key t.local ≡ some none =
      ap (λ o. get_item stored_account_key (or_else o s.local)) gone
      ∙ get_item-remove_item stored_account_key s.local emptied gone in
    (
      ap (λ o. load_from p o w) none_left,
      ap (λ (m : Storage). load_from p (get_item stored_account_key m) w)
            (hydrate_account_key-unset t (cleared_prefs s.native s.prefs))
          ∙ ap (λ o. load_from p o w) none_left,
    )
