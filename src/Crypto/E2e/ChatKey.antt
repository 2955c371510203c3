-- ===== src/Crypto/E2e/ChatKey.antt =====
-- The X25519 keypair of e2e.ts and the chat key that two users share.
use nothingapp.Common.{
  ℕ, ◌≡◌, refl, sym, ◌∙◌, true, false, map, [], ◌∷◌, Str, length, is_empty, arith,
}
use nothingapp.Crypto.Platform.{Bytes, CryptoKey, Platform, Lawful, Result, ok}
use nothingapp.Crypto.E2e.{
  b64encode, derive_x25519_private, derive_x25519_keypair, public_key_base64, derive_chat_key,
  chat_key_hkdf_label,
}
use nothingapp.Crypto.E2e.Base64.{b64decode-b64encode}

is_empty-map : (bs : Bytes) (f : ℕ → ℕ) → length bs ≡ 32 → is_empty (map f bs) ≡ false
is_empty-map [] f h = absurd (omega arith)
is_empty-map (b ∷ bs) f h = refl

module _ (p : Platform) where
  -- What a user publishes: base64 of the public key of the scalar derived from the account key.
  abbrev pub public_of : CryptoKey → Str
  public_of k = b64encode p (p.get_public_key (derive_x25519_private p k.handle))

  -- The secret that two account keys share, and the chat key derived from a secret.
  abbrev pub secret_of : CryptoKey → CryptoKey → Result Bytes
  secret_of a b =
      p.get_shared_secret (derive_x25519_private p a.handle)
        (p.get_public_key (derive_x25519_private p b.handle))

  abbrev pub chat_key_of : Bytes → CryptoKey
  chat_key_of shared = record {
    handle = p.hkdf shared (p.utf8_encode chat_key_hkdf_label);
    extractable = false;
    can_encrypt = true;
    can_decrypt = true;
  }

module _ (p : Platform) (l : Lawful p) where
  private_length : (raw : Bytes) → length (derive_x25519_private p raw) ≡ 32
  unfolding derive_x25519_private
  private_length raw = l.hkdf_length raw _

  pub public_nonempty : (k : CryptoKey) → is_empty (public_of p k) ≡ false
  unfolding b64encode
  public_nonempty k = l.btoa_nonempty _ (is_empty-map _ _ (l.public_length _))

  pub public_key_base64_lem :
      (k : CryptoKey) (w : ℕ)
      → k.extractable ≡ true
      → public_key_base64 p k w ≡ (ok (public_of p k), w)
  unfolding public_key_base64 derive_x25519_keypair
  public_key_base64_lem k w h = rw (l.export_lem k h)

  pub derive_chat_key_lem :
      (a b : CryptoKey) (s : Bytes) (w : ℕ)
      → a.extractable ≡ true
      → secret_of p a b ≡ ok s
      → derive_chat_key p a (public_of p b) w ≡ (ok (chat_key_of p s), w)
  unfolding derive_chat_key derive_x25519_keypair
  derive_chat_key_lem a b s w h e =
      rw (l.export_lem a h) (
        rw (b64decode-b64encode p l _ w (l.public_bytes (derive_x25519_private p b.handle))) (rw e))

  pub secret_defined : (a b : CryptoKey) → (s : Bytes) × (secret_of p a b ≡ ok s)
  secret_defined a b =
      l.shared_defined (derive_x25519_private p a.handle) (derive_x25519_private p b.handle)
        (private_length a.handle) (private_length b.handle)

  pub secret_comm : (a b : CryptoKey) → secret_of p a b ≡ secret_of p b a
  secret_comm a b =
      l.shared_comm (derive_x25519_private p a.handle) (derive_x25519_private p b.handle)
        (private_length a.handle) (private_length b.handle)

  -- Two users who publish their public keys derive one and the same chat key, each from the own
  -- account key and the key that the other published; the key encrypts and decrypts. (The account
  -- keys are exportable.)
  pub derive_chat_key_symmetric :
      (a b : CryptoKey) (w : ℕ)
      → a.extractable ≡ true
      → b.extractable ≡ true
      → (pa : Str) × (pb : Str) × (chat : CryptoKey) × (public_key_base64 p a w ≡ (ok pa, w))
        × (public_key_base64 p b w ≡ (ok pb, w))
        × (derive_chat_key p a pb w ≡ (ok chat, w))
        × (derive_chat_key p b pa w ≡ (ok chat, w))
        × (chat.can_encrypt ≡ true)
        × (chat.can_decrypt ≡ true)
  derive_chat_key_symmetric a b w ha hb =
      let (s, e) = secret_defined a b in
      (
        public_of p a,
        public_of p b,
        chat_key_of p s,
        public_key_base64_lem a w ha,
        public_key_base64_lem b w hb,
        derive_chat_key_lem a b s w ha e,
        derive_chat_key_lem b a s w hb (sym (secret_comm a b) ∙ e),
        refl,
        refl,
      )
