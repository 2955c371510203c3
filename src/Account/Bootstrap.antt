-- ===== src/Account/Bootstrap.antt =====
-- frontend/src/features/auth/vaultBootstrap.ts and AccountKeyProvider.tsx: the account key at a login,
-- and its state in the application. `accepted` is whether the server takes the upload; what is
-- uploaded then is part of the result.
use nothingapp.Common.{
  ℕ, Bool, not, ◌&&◌, Option, none, some, [], Str, is_empty, if◌then◌else◌, or_else,
}
use nothingapp.Crypto.Platform.{CryptoKey, Platform, Result, ok, err, request_failed}
use nothingapp.Crypto.Async.{Async, pure, throw, lift, ◌>>=◌}
use nothingapp.Crypto.E2e.{VaultMaterial, NewVault, setup_new_vault, open_vault, public_key_base64}
use nothingapp.Crypto.E2e.Stored.{
  KeyStore, save_account_key, hydrate_account_key, load_stored_account_key,
  clear_stored_account_key,
}

pub record ServerVaultFields : Type 0 where
  pub vault_salt : Option Str
  pub encrypted_account_key : Option Str
  pub public_key : Option Str

pub record VaultUpload : Type 0 where
  pub vault : VaultMaterial
  pub public_key : Str

-- The account key of a login, and what the server has taken.
pub record Login : Type 0 where
  pub account_key : CryptoKey
  pub uploaded : Option VaultUpload

unfoldable pub has_existing_vault : ServerVaultFields → Bool
has_existing_vault f =
    not (is_empty (or_else f.vault_salt [])) && not (is_empty (or_else f.encrypted_account_key []))

abbrev pub vault_of_fields : ServerVaultFields → VaultMaterial
vault_of_fields f = record {
  vault_salt = or_else f.vault_salt [];
  encrypted_account_key = or_else f.encrypted_account_key [];
}

abbrev backfilled : VaultMaterial → Bool → CryptoKey → Result Str × ℕ → Result Login × ℕ
backfilled vault accepted key (err e, w) = (ok (record { account_key = key; uploaded = none }), w)
backfilled vault accepted key (ok pub_key, w) = (
  ok (record {
    account_key = key;
    uploaded = if accepted then some (record { vault = vault; public_key = pub_key }) else none;
  }),
  w,
)

module _ (p : Platform) where
  -- The `try` around the upload of a missing public key: a failure is no failure of the login.
  unfoldable pub backfill : ServerVaultFields → Bool → CryptoKey → Async Login
  backfill f accepted key w =
      if is_empty (or_else f.public_key [])
      then backfilled (vault_of_fields f) accepted key (public_key_base64 p key w)
      else (ok (record { account_key = key; uploaded = none }), w)

  -- `putVault` of a new vault.
  unfoldable pub upload_new : Bool → NewVault → Str → Async Login
  upload_new accepted v pub_key =
      if accepted
      then pure (record {
        account_key = v.account_key;
        uploaded = some (record { vault = v.vault; public_key = pub_key });
      })
      else throw request_failed

  unfoldable pub login_key : Str → ServerVaultFields → Bool → Async Login
  unfolding backfill upload_new has_existing_vault
  login_key password f accepted =
      if has_existing_vault f
      then (open_vault p password (vault_of_fields f) >>= λ key. backfill f accepted key)
      else (setup_new_vault p password >>= λ v.
          public_key_base64 p v.account_key >>= λ pub_key. upload_new accepted v pub_key)

  -- `e2e` is `isE2EAvailable()`; the key is stored at the end.
  unfoldable pub bootstrap_vault_on_login :
      Bool → Str → ServerVaultFields → Bool → KeyStore → Async (Option Login × KeyStore)
  unfolding login_key
  bootstrap_vault_on_login e2e password f accepted store =
      if e2e
      then (login_key password f accepted >>= λ login.
          lift (save_account_key p login.account_key store) >>= λ saved. pure (some login, saved))
      else pure (none, store)

pub data AccountKeyState : Type 0 where
  loading : AccountKeyState
  missing : AccountKeyState
  ready : CryptoKey → AccountKeyState

-- `setKey`.
unfoldable pub set_key : Option CryptoKey → AccountKeyState
set_key none = missing
set_key (some key) = ready key

module _ (p : Platform) where
  -- The boot of the provider: the stored key, or none where reading it throws.
  unfoldable pub boot : KeyStore → ℕ → KeyStore × AccountKeyState
  unfolding set_key
  boot s w =
      let t = hydrate_account_key s in (t, set_key (or_else (load_stored_account_key p t w) none))

-- `clear`.
unfoldable pub clear : KeyStore → KeyStore × AccountKeyState
clear s = (clear_stored_account_key s, missing)
