-- ===== src/Crypto/E2e/Files.antt =====
-- Attachments of e2e.ts: the file, its metadata, and the wrapped file key.
use nothingapp.Common.{ℕ, suc, ◌≡◌, Bool, true, false, Str, length, is_empty, codes, if◌then◌else◌}
use nothingapp.Crypto.Platform.{Bytes, IsBytes, CryptoKey, Platform, Lawful, ok, AttachmentMetadata}
use nothingapp.Crypto.E2e.{
  iv_bytes, account_key_bytes, random_uint8_array, b64encode, encrypt_file, decrypt_file,
  encrypt_metadata, decrypt_metadata, wrap_file_key, unwrap_file_key, SealedFile, Sealed,
  WrappedKey,
}
use nothingapp.Crypto.E2e.Base64.{b64decode-b64encode}

-- The mime type that `decryptFile` gives the blob.
abbrev pub mime_or_default : Str → Str
mime_or_default m = if is_empty m then codes "application/octet-stream" else m

-- The key that `unwrapFileKey` imports.
abbrev pub file_key_of : Bytes → Bool → CryptoKey
file_key_of raw extractable = record {
  handle = raw;
  extractable = extractable;
  can_encrypt = false;
  can_decrypt = true;
}

module _ (p : Platform) (l : Lawful p) where
  abbrev pub sealed_file_of : Bytes → CryptoKey → ℕ → SealedFile
  sealed_file_of content k w = record {
    ciphertext = p.seal k.handle (p.random_values w iv_bytes) content;
    iv = b64encode p (p.random_values w iv_bytes);
  }

  pub encrypt_file_lem :
      (content : Bytes) (k : CryptoKey) (w : ℕ)
      → k.can_encrypt ≡ true
      → encrypt_file p content k w ≡ (ok (sealed_file_of content k w), suc w)
  unfolding encrypt_file random_uint8_array
  encrypt_file_lem content k w h = rw (l.encrypt_lem (p.random_values w iv_bytes) k content h)

  pub decrypt_file-sealed_file_of :
      (content : Bytes) (k k' : CryptoKey) (mime : Str) (w later : ℕ)
      → k'.handle ≡ k.handle
      → k'.can_decrypt ≡ true
      → decrypt_file p
          (sealed_file_of content k w).ciphertext
          (sealed_file_of content k w).iv
          k'
          mime
          later
        ≡ (ok (record { content = content; mime = mime_or_default mime }), later)
  unfolding decrypt_file
  decrypt_file-sealed_file_of content k k' mime w later same h =
      let iv = p.random_values w iv_bytes in
      rw (b64decode-b64encode p l iv later (l.random_bytes w iv_bytes))
        (rw (← same) (rw (l.decrypt_lem iv k' content h)))

  abbrev pub sealed_metadata_of : AttachmentMetadata → CryptoKey → ℕ → Sealed
  sealed_metadata_of meta k w = record {
    ciphertext =
        b64encode p (
          p.seal k.handle (p.random_values w iv_bytes) (p.utf8_encode (p.stringify_metadata meta)));
    iv = b64encode p (p.random_values w iv_bytes);
  }

  pub encrypt_metadata_lem :
      (meta : AttachmentMetadata) (k : CryptoKey) (w : ℕ)
      → k.can_encrypt ≡ true
      → encrypt_metadata p meta k w ≡ (ok (sealed_metadata_of meta k w), suc w)
  unfolding encrypt_metadata random_uint8_array
  encrypt_metadata_lem meta k w h = rw (l.encrypt_lem (p.random_values w iv_bytes) k _ h)

  pub decrypt_metadata-sealed_metadata_of :
      (meta : AttachmentMetadata) (k k' : CryptoKey) (w later : ℕ)
      → k'.handle ≡ k.handle
      → k'.can_decrypt ≡ true
      → decrypt_metadata p
          (sealed_metadata_of meta k w).ciphertext
          (sealed_metadata_of meta k w).iv
          k'
          later
        ≡ (ok meta, later)
  unfolding decrypt_metadata
  decrypt_metadata-sealed_metadata_of meta k k' w later same h =
      let iv = p.random_values w iv_bytes in
      let plain = p.utf8_encode (p.stringify_metadata meta) in
      rw (b64decode-b64encode p l _ later (l.seal_bytes k.handle iv plain (l.encode_bytes _))) (
        rw (b64decode-b64encode p l iv later (l.random_bytes w iv_bytes))
          (rw (← same) (rw (l.decrypt_lem iv k' plain h) (rw (l.parse-stringify meta)))))

  abbrev pub wrapped_key_of : Bytes → CryptoKey → ℕ → WrappedKey
  wrapped_key_of raw k w = record {
    encrypted_file_key = b64encode p (p.seal k.handle (p.random_values w iv_bytes) raw);
    iv = b64encode p (p.random_values w iv_bytes);
  }

  pub wrap_file_key_lem :
      (file_key k : CryptoKey) (w : ℕ)
      → file_key.extractable ≡ true
      → k.can_encrypt ≡ true
      → wrap_file_key p file_key k w ≡ (ok (wrapped_key_of file_key.handle k w), suc w)
  unfolding wrap_file_key random_uint8_array
  wrap_file_key_lem file_key k w hx h =
      rw (l.export_lem file_key hx) (rw (l.encrypt_lem (p.random_values w iv_bytes) k _ h))

  pub unwrap_file_key-wrapped_key_of :
      (raw : Bytes) (k : CryptoKey) (extractable : Bool) (w later : ℕ)
      → IsBytes raw
      → length raw ≡ account_key_bytes
      → k.can_decrypt ≡ true
      → unwrap_file_key p
          (wrapped_key_of raw k w).encrypted_file_key
          (wrapped_key_of raw k w).iv
          k
          extractable
          later
        ≡ (ok (file_key_of raw extractable), later)
  unfolding unwrap_file_key
  unwrap_file_key-wrapped_key_of raw k extractable w later hb n h =
      let iv = p.random_values w iv_bytes in
      rw (b64decode-b64encode p l _ later (l.seal_bytes k.handle iv raw hb)) (
        rw (b64decode-b64encode p l iv later (l.random_bytes w iv_bytes))
          (rw (l.decrypt_lem iv k raw h) (rw (l.import_lem raw extractable false n))))
