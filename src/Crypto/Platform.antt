-- ===== src/Crypto/Platform.antt =====
-- What frontend/src/shared/crypto/e2e.ts takes from the browser and from @noble/curves: WebCrypto,
-- `btoa`, `TextEncoder`, X25519. It is a parameter of the model; `Lawful` holds the documented
-- behaviour that the code relies on.
use Prim.Native.Nat.{ℕ, ◌<◌}
use nothingapp.Common.{
  ◌≡◌, Bool, true, false, ◌&&◌, ◌||◌, Option, some, List, [], ◌∷◌, All, length, Str, is_empty, ltb,
  leb, ◌==◌, if◌then◌else◌,
}

abbrev pub Bytes : Type 0
Bytes = List ℕ

abbrev pub IsBytes : Bytes → Type 0
IsBytes = All (λ b. b < 256)

-- The slots of a WebCrypto `CryptoKey` that the code depends on: its material, whether it can be
-- exported, and its usages.
pub record CryptoKey : Type 0 where
  pub handle : Bytes
  pub extractable : Bool
  pub can_encrypt : Bool
  pub can_decrypt : Bool

-- What a step of the code can throw.
pub data Error : Type 0 where
  operation_error : Error
  invalid_access : Error
  invalid_character : Error
  bad_point : Error
  no_recipients : Error
  missing_key : ℕ → Error
  members_missing : ℕ → Error
  sender_missing : Error
  no_source_key : Error
  no_chat_key : Error
  no_recipient : Error
  request_failed : Error

pub data Result {ℓ} (A : Type ℓ) : Type ℓ where
  ok : A → Result A
  err : Error → Result A

-- The file names and mime types of an attachment; the fields are strings of any content.
pub record AttachmentMetadata : Type 0 where
  pub file_name : Str
  pub mime_type : Str

-- `JSON.parse(json) as Partial<AttachmentMetadata>`: a field that is absent, or no string, is none.
pub record PartialMetadata : Type 0 where
  pub file_name : Option Str
  pub mime_type : Option Str

pub record Platform : Type 0 where
  pub btoa : Str → Str
  pub atob : Str → Result Str
  pub utf8_encode : Str → Bytes
  pub utf8_decode : Bytes → Str
  -- The bytes that the draw of this number returns, for an array of this size.
  pub random_values : ℕ → ℕ → Bytes
  -- PBKDF2-HMAC-SHA-256 and HKDF-SHA-256 (empty salt) to 256 bits; AES-256-GCM's sealing.
  pub pbkdf2 : Bytes → Bytes → ℕ → Bytes
  pub hkdf : Bytes → Bytes → Bytes
  pub seal : Bytes → Bytes → Bytes → Bytes
  -- The material of a key that `generateKey` makes at this draw.
  pub generate_key : ℕ → Bytes
  pub import_raw : Bytes → Bool → Bool → Result CryptoKey
  pub export_raw : CryptoKey → Result Bytes
  pub encrypt : Bytes → CryptoKey → Bytes → Result Bytes
  pub decrypt : Bytes → CryptoKey → Bytes → Result Bytes
  pub get_public_key : Bytes → Bytes
  pub get_shared_secret : Bytes → Bytes → Result Bytes
  pub stringify_metadata : AttachmentMetadata → Str
  pub parse_metadata : Str → Result PartialMetadata

-- Well-formed UTF-16: every surrogate stands in a pair.
unfoldable pub is_well_formed : Str → Bool
is_well_formed [] = true
is_well_formed (c ∷ []) = ltb c 0xd800 || (leb 0xe000 c && ltb c 0x10000)
is_well_formed (c ∷ d ∷ s) =
    let single = is_well_formed (d ∷ s) in
    let paired = leb 0xd800 c && ltb c 0xdc00 && leb 0xdc00 d && ltb d 0xe000 && is_well_formed s in
    if ltb c 0xd800 || (leb 0xe000 c && ltb c 0x10000) then single else paired

abbrev has_mark : Str → Bool
has_mark [] = false
has_mark (c ∷ s) = c == 0xfeff

-- The text that `TextDecoder` gives back whole: well-formed, and with no byte order mark first.
unfoldable pub IsPlainText : Str → Type 0
IsPlainText s = (is_well_formed s ≡ true) × (has_mark s ≡ false)

pub record Lawful (p : Platform) : Type 0 where
  -- `atob` undoes `btoa`, which accepts exactly the strings of Latin-1.
  pub atob-btoa : (s : Str) → IsBytes s → p.atob (p.btoa s) ≡ ok s
  pub btoa_nonempty : (s : Str) → is_empty s ≡ false → is_empty (p.btoa s) ≡ false
  pub decode-encode : (s : Str) → IsPlainText s → p.utf8_decode (p.utf8_encode s) ≡ s
  pub encode_bytes : (s : Str) → IsBytes (p.utf8_encode s)
  pub random_length : (i n : ℕ) → length (p.random_values i n) ≡ n
  pub random_bytes : (i n : ℕ) → IsBytes (p.random_values i n)
  pub generate_length : (i : ℕ) → length (p.generate_key i) ≡ 32
  pub generate_bytes : (i : ℕ) → IsBytes (p.generate_key i)
  pub hkdf_length : (s l : Bytes) → length (p.hkdf s l) ≡ 32
  pub public_length : (s : Bytes) → length (p.get_public_key s) ≡ 32
  pub public_bytes : (s : Bytes) → IsBytes (p.get_public_key s)
  pub seal_bytes : (k iv m : Bytes) → IsBytes m → IsBytes (p.seal k iv m)
  -- A raw AES key of 32 bytes is accepted.
  pub import_lem :
      (raw : Bytes) (extractable enc : Bool)
      → length raw ≡ 32
      → p.import_raw raw extractable enc
        ≡ ok (record {
          handle = raw;
          extractable = extractable;
          can_encrypt = enc;
          can_decrypt = true;
        })
  pub export_lem : (k : CryptoKey) → k.extractable ≡ true → p.export_raw k ≡ ok k.handle
  pub export_refused : (k : CryptoKey) → k.extractable ≡ false → p.export_raw k ≡ err invalid_access
  pub encrypt_lem :
      (iv : Bytes) (k : CryptoKey) (m : Bytes)
      → k.can_encrypt ≡ true
      → p.encrypt iv k m ≡ ok (p.seal k.handle iv m)
  pub decrypt_lem :
      (iv : Bytes) (k : CryptoKey) (m : Bytes)
      → k.can_decrypt ≡ true
      → p.decrypt iv k (p.seal k.handle iv m) ≡ ok m
  -- Diffie and Hellman: both sides compute one secret.
  pub shared_comm :
      (a b : Bytes)
      → length a ≡ 32
      → length b ≡ 32
      → p.get_shared_secret a (p.get_public_key b) ≡ p.get_shared_secret b (p.get_public_key a)
  -- @noble/curves rejects points of small order only; the public key of a scalar is none.
  pub shared_defined :
      (a b : Bytes)
      → length a ≡ 32
      → length b ≡ 32
      → (s : Bytes) × (p.get_shared_secret a (p.get_public_key b) ≡ ok s)
  -- `JSON.parse` undoes `JSON.stringify`, on text that survives the encoder too.
  pub parse-stringify :
      (m : AttachmentMetadata)
      → p.parse_metadata (p.utf8_decode (p.utf8_encode (p.stringify_metadata m)))
        ≡ ok (record { file_name = some m.file_name; mime_type = some m.mime_type })
