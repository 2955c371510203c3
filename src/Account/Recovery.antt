-- ===== src/Account/Recovery.antt =====
-- A first login of vaultBootstrap.ts, and later ones on other devices.
use nothingapp.Common.{
  ℕ, suc, ◌+◌, ◌++◌, ◌≡◌, refl, Bool, true, false, none, some, Str, length, length-append, arith,
}
use nothingapp.Crypto.Platform.{CryptoKey, Platform, Lawful, ok}
use nothingapp.Crypto.E2e.{iv_bytes, salt_bytes, account_key_bytes, derive_vault_key}
use nothingapp.Crypto.E2e.Base64.{b64encode_nonempty}
use nothingapp.Crypto.E2e.ChatKey.{public_of, public_key_base64_lem, public_nonempty}
use nothingapp.Crypto.E2e.Vault.{new_vault_of, setup_new_vault_lem, open_vault-vault_of}
use nothingapp.Account.Bootstrap.{
  ServerVaultFields, VaultUpload, has_existing_vault, backfill, upload_new, login_key,
}

-- What the server answers at a later login.
abbrev pub fields_of : VaultUpload → ServerVaultFields
fields_of u = record {
  vault_salt = some u.vault.vault_salt;
  encrypted_account_key = some u.vault.encrypted_account_key;
  public_key = some u.public_key;
}

module _ (p : Platform) (l : Lawful p) where
  abbrev upload_of : Str → ℕ → VaultUpload
  upload_of password w = record {
    vault = (new_vault_of p l password w).vault;
    public_key = public_of p (new_vault_of p l password w).account_key;
  }

  has_uploaded :
      (password : Str) (w : ℕ) → has_existing_vault (fields_of (upload_of password w)) ≡ true
  unfolding has_existing_vault
  has_uploaded password w =
      let salt = p.random_values (suc w) salt_bytes in
      let iv = p.random_values (suc (suc w)) iv_bytes in
      let raw = p.random_values w account_key_bytes in
      let sealed = p.seal (derive_vault_key p password salt).handle iv raw in
      let n : length (iv ++ sealed) ≡ suc (11 + length sealed) =
        omega (arith, length-append iv sealed, l.random_length (suc (suc w)) iv_bytes) in
      rw (b64encode_nonempty p l salt 15 (l.random_length (suc w) salt_bytes))
        (rw (b64encode_nonempty p l (iv ++ sealed) (11 + length sealed) n) refl)

  -- The account key follows its user: a first login, with an upload that the server accepts, sets up
  -- a key, and every later login with the same password, on any device, comes to that very key from
  -- what the server kept, and uploads nothing; the published key is the account key's, so that
  -- what others encrypt for it can be read on each device.
  pub login_key_recovers :
      (password : Str) (f : ServerVaultFields) (accepted : Bool) (w later : ℕ)
      → has_existing_vault f ≡ false
      → (key : CryptoKey) × (u : VaultUpload) × ((login_key p password f true w).0
          ≡ ok (record { account_key = key; uploaded = some u }))
        × (login_key p password (fields_of u) accepted later
            ≡ (ok (record { account_key = key; uploaded = none }), later))
        × (u.public_key ≡ public_of p key)
  unfolding login_key backfill upload_new
  login_key_recovers password f accepted w later fresh =
      let v = new_vault_of p l password w in
      (
        v.account_key,
        upload_of password w,
        rw fresh (
            rw (setup_new_vault_lem p l password w)
              (rw (public_key_base64_lem p l v.account_key (suc (suc (suc w))) refl) refl)),
        rw (has_uploaded password w) (
            rw
              (open_vault-vault_of p l password (p.random_values (suc w) salt_bytes)
                (p.random_values (suc (suc w)) iv_bytes) (p.random_values w account_key_bytes) later
                (l.random_bytes _ _) (l.random_bytes _ _) (l.random_length _ _) (l.random_bytes _ _)
                (l.random_length _ _))
              (rw (public_nonempty p l v.account_key) refl)),
        refl,
      )
