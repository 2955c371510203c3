-- ===== src/Crypto/E2e.antt =====
-- frontend/src/shared/crypto/e2e.ts: the vault, message and file encryption, and their keys. Every
-- `async` function is an `Async` computation over a `Platform`.
pub mod Base64
pub mod Vault
pub mod ChatKey
pub mod Message
pub mod Files
pub mod Group
pub mod Stored
mod Tests
use nothingapp.Common.{
  ℕ, suc, ◌++◌, ◌%◌, Bool, true, false, Option, List, [], ◌∷◌, map, take, drop, length, Str, codes,
  is_empty, if◌then◌else◌, or_else, ◌==◌,
}
use nothingapp.Crypto.Platform.{
  Bytes, CryptoKey, Platform, Result, ok, err, AttachmentMetadata, PartialMetadata, no_recipients,
  missing_key,
}
use nothingapp.Crypto.Async.{Async, pure, throw, lift, ◌>>=◌}

abbrev pub pbkdf2_iterations : ℕ
pbkdf2_iterations = 600000

abbrev pub account_key_bytes : ℕ
account_key_bytes = 32

abbrev pub salt_bytes : ℕ
salt_bytes = 16

abbrev pub iv_bytes : ℕ
iv_bytes = 12

abbrev pub x25519_scalar_label : Str
x25519_scalar_label = codes "messenger-x25519-private-v1"

abbrev pub chat_key_hkdf_label : Str
chat_key_hkdf_label = codes "messenger-chat-aes-v1"

pub record VaultMaterial : Type 0 where
  pub vault_salt : Str
  pub encrypted_account_key : Str

pub record NewVault : Type 0 where
  pub account_key : CryptoKey
  pub vault : VaultMaterial

pub record Sealed : Type 0 where
  pub ciphertext : Str
  pub iv : Str

pub record SealedFile : Type 0 where
  pub ciphertext : Bytes
  pub iv : Str

pub record File : Type 0 where
  pub content : Bytes
  pub mime : Str

pub record WrappedKey : Type 0 where
  pub encrypted_file_key : Str
  pub iv : Str

pub record Keypair : Type 0 where
  pub private_key : Bytes
  pub public_key : Bytes

pub record GroupRecipientKey : Type 0 where
  pub user_id : ℕ
  pub public_key : Str

pub record GroupEnvelope : Type 0 where
  pub recipient_id : ℕ
  pub ciphertext : Str
  pub iv : Str

module _ (p : Platform) where
  pub random_uint8_array : ℕ → Async Bytes
  random_uint8_array n w = (ok (p.random_values w n), suc w)

  -- `String.fromCharCode` takes a number modulo 2^16.
  pub b64encode : Bytes → Str
  b64encode bytes = p.btoa (map (λ b. b % 65536) bytes)

  -- A write into a `Uint8Array` takes a number modulo 2^8.
  pub b64decode : Str → Async Bytes
  b64decode s = do binary ← lift (p.atob s); pure (map (λ c. c % 256) binary)

  pub derive_vault_key : Str → Bytes → CryptoKey
  derive_vault_key password salt = record {
    handle = p.pbkdf2 (p.utf8_encode password) salt pbkdf2_iterations;
    extractable = false;
    can_encrypt = true;
    can_decrypt = true;
  }

  pub aes_gcm_encrypt : Bytes → CryptoKey → Async Bytes
  aes_gcm_encrypt plaintext key = do
    iv ← random_uint8_array iv_bytes
    ct ← lift (p.encrypt iv key plaintext)
    pure (iv ++ ct)

  pub aes_gcm_decrypt : Bytes → CryptoKey → Async Bytes
  aes_gcm_decrypt combined key = do
    let iv = take iv_bytes combined
    let ct = drop iv_bytes combined
    lift (p.decrypt iv key ct)

  pub import_account_key : Bytes → Async CryptoKey
  import_account_key raw = lift (p.import_raw raw true true)

  pub setup_new_vault : Str → Async NewVault
  setup_new_vault password = do
    raw_account_key ← random_uint8_array account_key_bytes
    salt ← random_uint8_array salt_bytes
    let vault_key = derive_vault_key password salt
    wrapped ← aes_gcm_encrypt raw_account_key vault_key
    account_key ← import_account_key raw_account_key
    pure (record {
      account_key = account_key;
      vault = record { vault_salt = b64encode salt; encrypted_account_key = b64encode wrapped };
    })

  pub open_vault : Str → VaultMaterial → Async CryptoKey
  open_vault password vault = do
    salt ← b64decode vault.vault_salt
    wrapped ← b64decode vault.encrypted_account_key
    let vault_key = derive_vault_key password salt
    raw_account_key ← aes_gcm_decrypt wrapped vault_key
    import_account_key raw_account_key

  pub rewrap_account_key : CryptoKey → Str → Async VaultMaterial
  rewrap_account_key account_key new_password = do
    raw ← lift (p.export_raw account_key)
    salt ← random_uint8_array salt_bytes
    let vault_key = derive_vault_key new_password salt
    wrapped ← aes_gcm_encrypt raw vault_key
    pure (record { vault_salt = b64encode salt; encrypted_account_key = b64encode wrapped })

  pub encrypt_message : Str → CryptoKey → Async Sealed
  encrypt_message plaintext account_key = do
    iv ← random_uint8_array iv_bytes
    ct ← lift (p.encrypt iv account_key (p.utf8_encode plaintext))
    pure (record { ciphertext = b64encode ct; iv = b64encode iv })

  pub decrypt_message : Str → Str → CryptoKey → Async Str
  decrypt_message ciphertext iv account_key = do
    ct ← b64decode ciphertext
    iv' ← b64decode iv
    pt ← lift (p.decrypt iv' account_key ct)
    pure (p.utf8_decode pt)

  pub derive_x25519_private : Bytes → Bytes
  derive_x25519_private raw = p.hkdf raw (p.utf8_encode x25519_scalar_label)

  pub derive_x25519_keypair : CryptoKey → Async Keypair
  derive_x25519_keypair account_key = do
    raw ← lift (p.export_raw account_key)
    let private_key = derive_x25519_private raw
    pure (record { private_key = private_key; public_key = p.get_public_key private_key })

  pub public_key_base64 : CryptoKey → Async Str
  public_key_base64 account_key = do
    pair ← derive_x25519_keypair account_key
    pure (b64encode pair.public_key)

  pub derive_chat_key : CryptoKey → Str → Async CryptoKey
  derive_chat_key my_account_key peer_public_key = do
    pair ← derive_x25519_keypair my_account_key
    peer_public ← b64decode peer_public_key
    shared ← lift (p.get_shared_secret pair.private_key peer_public)
    pure (record {
      handle = p.hkdf shared (p.utf8_encode chat_key_hkdf_label);
      extractable = false;
      can_encrypt = true;
      can_decrypt = true;
    })

  -- The loop of `encryptForGroup`.
  pub envelopes_for : Str → CryptoKey → List GroupRecipientKey → Async (List GroupEnvelope)
  envelopes_for plaintext sender [] = pure []
  envelopes_for plaintext sender (r ∷ rs) =
      if is_empty r.public_key then throw (missing_key r.user_id) else do
        chat_key ← derive_chat_key sender r.public_key
        sealed ← encrypt_message plaintext chat_key
        rest ← envelopes_for plaintext sender rs
        pure (
            record { recipient_id = r.user_id; ciphertext = sealed.ciphertext; iv = sealed.iv }
            ∷ rest)

  pub encrypt_for_group : Str → List GroupRecipientKey → CryptoKey → Async (List GroupEnvelope)
  encrypt_for_group plaintext recipients sender =
      if is_empty recipients then throw no_recipients else envelopes_for plaintext sender recipients

  unfoldable pub generate_file_key : Async CryptoKey
  generate_file_key w = (
    ok (record {
      handle = p.generate_key w;
      extractable = true;
      can_encrypt = true;
      can_decrypt = true;
    }),
    suc w,
  )

  pub encrypt_file : Bytes → CryptoKey → Async SealedFile
  encrypt_file plaintext file_key = do
    iv ← random_uint8_array iv_bytes
    ct ← lift (p.encrypt iv file_key plaintext)
    pure (record { ciphertext = ct; iv = b64encode iv })

  pub decrypt_file : Bytes → Str → CryptoKey → Str → Async File
  decrypt_file ciphertext iv_b64 file_key mime_type = do
    iv ← b64decode iv_b64
    pt ← lift (p.decrypt iv file_key ciphertext)
    pure (record {
      content = pt;
      mime = if is_empty mime_type then codes "application/octet-stream" else mime_type;
    })

  pub encrypt_metadata : AttachmentMetadata → CryptoKey → Async Sealed
  encrypt_metadata meta file_key = do
    iv ← random_uint8_array iv_bytes
    ct ← lift (p.encrypt iv file_key (p.utf8_encode (p.stringify_metadata meta)))
    pure (record { ciphertext = b64encode ct; iv = b64encode iv })

  pub decrypt_metadata : Str → Str → CryptoKey → Async AttachmentMetadata
  decrypt_metadata ciphertext_b64 iv_b64 file_key = do
    ciphertext ← b64decode ciphertext_b64
    iv ← b64decode iv_b64
    pt ← lift (p.decrypt iv file_key ciphertext)
    parsed ← lift (p.parse_metadata (p.utf8_decode pt))
    pure (record {
      file_name = or_else parsed.file_name [];
      mime_type = or_else parsed.mime_type [];
    })

  pub wrap_file_key : CryptoKey → CryptoKey → Async WrappedKey
  wrap_file_key file_key chat_key = do
    raw ← lift (p.export_raw file_key)
    iv ← random_uint8_array iv_bytes
    ct ← lift (p.encrypt iv chat_key raw)
    pure (record { encrypted_file_key = b64encode ct; iv = b64encode iv })

  pub unwrap_file_key : Str → Str → CryptoKey → Bool → Async CryptoKey
  unwrap_file_key encrypted_file_key envelope_iv chat_key extractable = do
    ct ← b64decode encrypted_file_key
    iv ← b64decode envelope_iv
    raw ← lift (p.decrypt iv chat_key ct)
    lift (p.import_raw raw extractable false)
