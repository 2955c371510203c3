-- ===== src/Crypto/E2e/Vault.antt =====
-- The vault of e2e.ts: setting it up, opening it, and wrapping the key again.
use nothingapp.Common.{ℕ, suc, ◌++◌, ◌≡◌, refl, true, All-append, length, Str, ◌<◌}
use nothingapp.Crypto.Platform.{Bytes, IsBytes, CryptoKey, Platform, Lawful, ok}
use nothingapp.Crypto.E2e.{
  iv_bytes, salt_bytes, account_key_bytes, random_uint8_array, b64encode, derive_vault_key,
  import_account_key, setup_new_vault, open_vault, rewrap_account_key, NewVault, VaultMaterial,
}
use nothingapp.Crypto.E2e.Base64.{b64decode-b64encode, aes_gcm_encrypt_lem, aes_gcm_decrypt_lem}

-- The key that `importAccountKey` makes of raw bytes.
abbrev pub account_key_of : Bytes → CryptoKey
account_key_of raw = record {
  handle = raw;
  extractable = true;
  can_encrypt = true;
  can_decrypt = true;
}

module _ (p : Platform) (l : Lawful p) where
  -- What `setupNewVault` and `rewrapAccountKey` upload for this key.
  abbrev pub vault_of : Str → Bytes → Bytes → Bytes → VaultMaterial
  vault_of password salt iv raw = record {
    vault_salt = b64encode p salt;
    encrypted_account_key =
        b64encode p (iv ++ p.seal (derive_vault_key p password salt).handle iv raw);
  }

  pub open_vault-vault_of :
      (password : Str) (salt iv raw : Bytes) (w : ℕ)
      → IsBytes salt
      → IsBytes iv
      → length iv ≡ iv_bytes
      → IsBytes raw
      → length raw ≡ account_key_bytes
      → open_vault p password (vault_of password salt iv raw) w ≡ (ok (account_key_of raw), w)
  unfolding open_vault import_account_key
  open_vault-vault_of password salt iv raw w hs hi ni hr nr =
      let key = derive_vault_key p password salt in
      let sealed = iv ++ p.seal key.handle iv raw in
      rw (b64decode-b64encode p l salt w hs) (
        rw
          (b64decode-b64encode p l sealed w
            (All-append (λ b. b < 256) iv _ hi (l.seal_bytes key.handle iv raw hr)))
          (rw (aes_gcm_decrypt_lem p l raw iv key w ni (unfold derive_vault_key in refl))
            (rw (l.import_lem raw true true nr))))

  abbrev pub new_vault_of : Str → ℕ → NewVault
  new_vault_of password w = record {
    account_key = account_key_of (p.random_values w account_key_bytes);
    vault =
        vault_of password (p.random_values (suc w) salt_bytes)
          (p.random_values (suc (suc w)) iv_bytes) (p.random_values w account_key_bytes);
  }

  pub setup_new_vault_lem :
      (password : Str) (w : ℕ)
      → setup_new_vault p password w ≡ (ok (new_vault_of password w), suc (suc (suc w)))
  unfolding setup_new_vault random_uint8_array import_account_key
  setup_new_vault_lem password w =
      let raw = p.random_values w account_key_bytes in
      let key = derive_vault_key p password (p.random_values (suc w) salt_bytes) in
      rw (aes_gcm_encrypt_lem p l raw key (suc (suc w)) (unfold derive_vault_key in refl))
        (rw (l.import_lem raw true true (l.random_length w account_key_bytes)))

  -- A vault that is set up with a password opens with that password, at any later time, to the
  -- very account key that the setup returned, and that key is exportable.
  pub open_vault-setup_new_vault :
      (password : Str) (w later : ℕ)
      → (v : NewVault) × ((setup_new_vault p password w).0 ≡ ok v)
        × (open_vault p password v.vault later ≡ (ok v.account_key, later))
        × (v.account_key.extractable ≡ true)
  open_vault-setup_new_vault password w later = (
    new_vault_of password w,
    rw (setup_new_vault_lem password w),
    open_vault-vault_of password _ _ _ later (l.random_bytes _ _) (l.random_bytes _ _)
        (l.random_length _ _) (l.random_bytes _ _) (l.random_length _ _),
    refl,
  )

  -- Changing the password wraps the same key: for an exportable account key of 32 bytes, the new
  -- vault opens with the new password to a key with the material of the old one.
  pub open_vault-rewrap_account_key :
      (k : CryptoKey) (new_password : Str) (w later : ℕ)
      → k.extractable ≡ true
      → IsBytes k.handle
      → length k.handle ≡ account_key_bytes
      → (v : VaultMaterial) × ((rewrap_account_key p k new_password w).0 ≡ ok v)
        × (open_vault p new_password v later ≡ (ok (account_key_of k.handle), later))
  unfolding rewrap_account_key random_uint8_array
  open_vault-rewrap_account_key k new_password w later ext hb n =
      let salt = p.random_values w salt_bytes in
      let key = derive_vault_key p new_password salt in
      (
        vault_of new_password salt (p.random_values (suc w) iv_bytes) k.handle,
        rw (l.export_lem k ext)
            (rw (aes_gcm_encrypt_lem p l k.handle key (suc w) (unfold derive_vault_key in refl))),
        open_vault-vault_of new_password _ _ _ later (l.random_bytes _ _) (l.random_bytes _ _)
            (l.random_length _ _) hb n,
      )
