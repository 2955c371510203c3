-- ===== src/Crypto/E2e/Base64.antt =====
-- The steps that the operations of e2e.ts share: base64, a sealed block with its IV, a keypair.
use native.Mathlib.Nat.{mod-eq_of_lt}
use nothingapp.Common.{
  ℕ, suc, ◌++◌, ◌%◌, ◌<◌, ◌≡◌, refl, true, false, [], ◌∷◌, map, length, is_empty, arith,
  take-length_append, drop-length_append,
}
use nothingapp.Crypto.Platform.{Bytes, IsBytes, CryptoKey, Platform, Lawful, ok}
use nothingapp.Crypto.E2e.{
  iv_bytes, random_uint8_array, b64encode, b64decode, aes_gcm_encrypt, aes_gcm_decrypt,
}

map-mod : (bs : Bytes) (m : ℕ) → IsBytes bs → 255 < m → map (λ b. b % m) bs ≡ bs
map-mod [] m h k = refl
map-mod (b ∷ bs) m h k = cc (map-mod bs m h.1 k, mod-eq_of_lt {n = b} {m = m} (omega arith))

module _ (p : Platform) (l : Lawful p) where
  pub b64encode_nonempty :
      (bs : Bytes) (n : ℕ) → length bs ≡ suc n → is_empty (b64encode p bs) ≡ false
  unfolding b64encode
  b64encode_nonempty [] n h = absurd (omega arith)
  b64encode_nonempty (b ∷ bs) n h = l.btoa_nonempty _ refl

  pub b64decode-b64encode :
      (bs : Bytes) (w : ℕ) → IsBytes bs → b64decode p (b64encode p bs) w ≡ (ok bs, w)
  unfolding b64decode b64encode
  b64decode-b64encode bs w h =
      rw (map-mod bs 65536 h (omega arith), b64encode)
        (rw (l.atob-btoa bs h) (rw (map-mod bs 256 h (omega arith))))

  pub aes_gcm_encrypt_lem :
      (m : Bytes) (k : CryptoKey) (w : ℕ)
      → k.can_encrypt ≡ true
      → aes_gcm_encrypt p m k w
        ≡ (ok (p.random_values w iv_bytes ++ p.seal k.handle (p.random_values w iv_bytes) m), suc w)
  unfolding aes_gcm_encrypt random_uint8_array
  aes_gcm_encrypt_lem m k w h = rw (l.encrypt_lem (p.random_values w iv_bytes) k m h)

  pub aes_gcm_decrypt_lem :
      (m iv : Bytes) (k : CryptoKey) (w : ℕ)
      → length iv ≡ iv_bytes
      → k.can_decrypt ≡ true
      → aes_gcm_decrypt p (iv ++ p.seal k.handle iv m) k w ≡ (ok m, w)
  unfolding aes_gcm_decrypt
  aes_gcm_decrypt_lem m iv k w n h =
      rw (take-length_append iv_bytes iv (p.seal k.handle iv m) n)
        (rw (drop-length_append iv_bytes iv (p.seal k.handle iv m) n) (rw (l.decrypt_lem iv k m h)))
