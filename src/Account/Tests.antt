-- ===== src/Account/Tests.antt =====
-- The theorems on logins and logouts at a concrete device.
use nothingapp.Common.{
  ◌≡◌, refl, true, false, ◌&&◌, str_eq, none, some, [], ◌∷◌, codes, if◌then◌else◌,
}
use nothingapp.Common.Storage.{lookup}
use nothingapp.Crypto.Platform.{CryptoKey, ok}
use nothingapp.Crypto.E2e.ChatKey.{public_of}
use nothingapp.Crypto.PeerKeys.{start}
use nothingapp.Crypto.Toy.{toy, toy-Lawful}
use nothingapp.Composer.Drafts.{draft_key}
use nothingapp.Account.Session.{Phone, Session, token_key, fcm_key, logout}
use nothingapp.Account.Logout.{is_scrubbed, has_registration, logout_scrubs}
use nothingapp.Account.Bootstrap.{ServerVaultFields, VaultUpload, has_existing_vault, login_key}
use nothingapp.Account.Recovery.{fields_of, login_key_recovers}

abbrev phone : Phone
phone = record {
  native = true;
  android = true;
  local = record {
    items = (token_key, codes "t") ∷ (fcm_key, codes "f") ∷ (draft_key 4, codes "secret") ∷ [];
    available = true;
    quota = 5000;
  };
  prefs = [];
}

abbrev session : Session
session = record {
  phone = phone;
  peers = start;
  user = some (codes "u");
  loading = false;
  failed = false;
  initialized = true;
}

logout_scrubs_example :
    let t = logout true session in
    (lookup fcm_key t.phone.local.items ≡ (
      if is_scrubbed fcm_key
      then none
      else if has_registration session.phone && str_eq fcm_key fcm_key
      then none
      else lookup fcm_key session.phone.local.items))
    × (t.user ≡ none)
    × (t.loading ≡ false)
    × (t.peers.cache ≡ [])
logout_scrubs_example = logout_scrubs true session fcm_key refl

abbrev newcomer : ServerVaultFields
newcomer = record { vault_salt = none; encrypted_account_key = none; public_key = none }

login_key_recovers_example :
    (key : CryptoKey) × (u : VaultUpload) × ((login_key toy (codes "pw") newcomer true 3).0
      ≡ ok (record { account_key = key; uploaded = some u }))
    × (login_key toy (codes "pw") (fields_of u) false 9
        ≡ (ok (record { account_key = key; uploaded = none }), 9))
    × (u.public_key ≡ public_of toy key)
login_key_recovers_example =
    login_key_recovers toy toy-Lawful (codes "pw") newcomer false 3 9
      (unfold has_existing_vault in refl)
