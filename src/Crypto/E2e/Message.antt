-- ===== src/Crypto/E2e/Message.antt =====
-- Message encryption of e2e.ts.
use nothingapp.Common.{ℕ, suc, ◌≡◌, true, Str}
use nothingapp.Crypto.Platform.{CryptoKey, Platform, Lawful, IsPlainText, ok}
use nothingapp.Crypto.E2e.{
  iv_bytes, random_uint8_array, b64encode, encrypt_message, decrypt_message, Sealed,
}
use nothingapp.Crypto.E2e.Base64.{b64decode-b64encode}

module _ (p : Platform) (l : Lawful p) where
  -- What `encryptMessage` returns at this draw.
  abbrev pub sealed_of : Str → CryptoKey → ℕ → Sealed
  sealed_of text k w = record {
    ciphertext = b64encode p (p.seal k.handle (p.random_values w iv_bytes) (p.utf8_encode text));
    iv = b64encode p (p.random_values w iv_bytes);
  }

  pub encrypt_message_lem :
      (text : Str) (k : CryptoKey) (w : ℕ)
      → k.can_encrypt ≡ true
      → encrypt_message p text k w ≡ (ok (sealed_of text k w), suc w)
  unfolding encrypt_message random_uint8_array
  encrypt_message_lem text k w h = rw (l.encrypt_lem (p.random_values w iv_bytes) k _ h)

  pub decrypt_message-sealed_of :
      (text : Str) (k : CryptoKey) (w later : ℕ)
      → IsPlainText text
      → k.can_decrypt ≡ true
      → decrypt_message p (sealed_of text k w).ciphertext (sealed_of text k w).iv k later
        ≡ (ok text, later)
  unfolding decrypt_message
  decrypt_message-sealed_of text k w later plain h =
      let iv = p.random_values w iv_bytes in
      rw (b64decode-b64encode p l _ later (l.seal_bytes k.handle iv _ (l.encode_bytes text))) (
        rw (b64decode-b64encode p l iv later (l.random_bytes w iv_bytes))
          (rw (l.decrypt_lem iv k (p.utf8_encode text) h) (rw (l.decode-encode text plain))))

  -- A message that is encrypted under a key decrypts under that key, at any later time, to the
  -- same text, where the key may encrypt and decrypt, and the text is well-formed and does not
  -- begin with a byte order mark.
  pub decrypt_message-encrypt_message :
      (text : Str) (k : CryptoKey) (w later : ℕ)
      → IsPlainText text
      → k.can_encrypt ≡ true
      → k.can_decrypt ≡ true
      → (m : Sealed) × ((encrypt_message p text k w).0 ≡ ok m)
        × (decrypt_message p m.ciphertext m.iv k later ≡ (ok text, later))
  decrypt_message-encrypt_message text k w later plain he hd = (
    sealed_of text k w,
    rw (encrypt_message_lem text k w he),
    decrypt_message-sealed_of text k w later plain hd,
  )
