-- ===== src/Crypto/Toy.antt =====
-- A platform that meets `Lawful`, for the witnesses: sealing prefixes a checksum of the key, a public
-- key is a checksum of the scalar, and text is encoded in unary.
use native.Mathlib.Nat.{mul_comm}
use nothingapp.Common.{
  ℕ, zero, suc, ◌+◌, ◌*◌, ◌%◌, ◌<◌, ◌==◌, ◌≡◌, ==_refl, refl, ap, ◌∙◌, true, some, [], ◌∷◌, ◌++◌,
  Str, length, take, drop, All-append, arith, if◌then◌else◌, take-length_append, drop-length_append,
}
use nothingapp.Crypto.Platform.{
  Bytes, IsBytes, Platform, Lawful, Result, ok, err, operation_error, invalid_access,
  PartialMetadata,
}

unfoldable pub replicate : ℕ → ℕ → Bytes
replicate zero b = []
replicate (suc n) b = b ∷ replicate n b

unfoldable pub sum : Bytes → ℕ
sum [] = 0
sum (b ∷ bs) = b + sum bs

abbrev pub checksum : Bytes → ℕ
checksum k = sum k % 256

unfoldable pub encode : Str → Bytes
encode [] = []
encode (c ∷ s) = replicate c 1 ++ 0 ∷ encode s

unfoldable pub decode_from : ℕ → Bytes → Str
decode_from n [] = []
decode_from n (zero ∷ bs) = n ∷ decode_from 0 bs
decode_from n (suc b ∷ bs) = decode_from (suc n) bs

unfoldable pub head_or : ℕ → Bytes → ℕ
head_or d [] = d
head_or d (b ∷ bs) = b

unfoldable pub open_seal : Bytes → Bytes → Result Bytes
open_seal k [] = err operation_error
open_seal k (t ∷ m) = if t == checksum k then ok m else err operation_error

unfoldable pub parse : Str → Result PartialMetadata
parse [] = err operation_error
parse (n ∷ s) = ok (record { file_name = some (take n s); mime_type = some (drop n s) })

abbrev pub toy : Platform
toy = record {
  btoa = λ s. s;
  atob = λ s. ok s;
  utf8_encode = encode;
  utf8_decode = decode_from 0;
  random_values = λ i n. replicate n (i % 256);
  pbkdf2 = λ password salt n. password ++ salt;
  hkdf = λ s l. replicate 32 (checksum s);
  seal = λ k iv m. checksum k ∷ m;
  generate_key = λ i. replicate 32 (i % 256);
  import_raw = λ raw x e.
      if length raw == 32
      then ok (record { handle = raw; extractable = x; can_encrypt = e; can_decrypt = true })
      else err operation_error;
  export_raw = λ k. if k.extractable then ok k.handle else err invalid_access;
  encrypt = λ iv k m. if k.can_encrypt then ok (checksum k.handle ∷ m) else err invalid_access;
  decrypt = λ iv k c. if k.can_decrypt then open_seal k.handle c else err invalid_access;
  get_public_key = λ s. replicate 32 (checksum s);
  get_shared_secret = λ a b. ok (checksum a * head_or 0 b ∷ []);
  stringify_metadata = λ m. length m.file_name ∷ m.file_name ++ m.mime_type;
  parse_metadata = parse;
}

length-replicate : (n b : ℕ) → length (replicate n b) ≡ n
unfolding replicate
length-replicate zero b = refl
length-replicate (suc n) b = ap suc (length-replicate n b)

replicate-IsBytes : (n b : ℕ) → b < 256 → IsBytes (replicate n b)
unfolding replicate
replicate-IsBytes zero b h = tt
replicate-IsBytes (suc n) b h = (h, replicate-IsBytes n b h)

encode-IsBytes : (s : Str) → IsBytes (encode s)
unfolding encode
encode-IsBytes [] = tt
encode-IsBytes (c ∷ s) =
    All-append (λ b. b < 256) (replicate c 1) _ (replicate-IsBytes c 1 (omega arith))
      (omega arith, encode-IsBytes s)

decode_from-replicate :
    (c n : ℕ) (s : Str) (bs : Bytes)
    → decode_from 0 bs ≡ s
    → decode_from n (replicate c 1 ++ 0 ∷ bs) ≡ (n + c) ∷ s
unfolding decode_from replicate
decode_from-replicate zero n s bs h = rw h (ap (λ t. t ∷ s) (omega arith))
decode_from-replicate (suc c) n s bs h =
    decode_from-replicate c (suc n) s bs h ∙ ap (λ t. t ∷ s) (omega arith)

decode-encode : (s : Str) → decode_from 0 (encode s) ≡ s
unfolding encode
decode-encode [] = unfold decode_from in refl
decode-encode (c ∷ s) =
    decode_from-replicate c 0 s (encode s) (decode-encode s) ∙ ap (λ t. t ∷ s) (omega arith)

open_seal-seal : (k m : Bytes) → open_seal k (checksum k ∷ m) ≡ ok m
unfolding open_seal
open_seal-seal k m = rw (==_refl (checksum k))

pub toy-Lawful : Lawful toy
unfolding open_seal
toy-Lawful = record {
  atob-btoa = λ s h. refl;
  btoa_nonempty = λ s h. h;
  decode-encode = λ s h. decode-encode s;
  encode_bytes = encode-IsBytes;
  random_length = λ i n. length-replicate n (i % 256);
  random_bytes = λ i n. replicate-IsBytes n (i % 256) (omega arith);
  generate_length = λ i. length-replicate 32 (i % 256);
  generate_bytes = λ i. replicate-IsBytes 32 (i % 256) (omega arith);
  hkdf_length = λ s l. length-replicate 32 (checksum s);
  public_length = λ s. length-replicate 32 (checksum s);
  public_bytes = λ s. replicate-IsBytes 32 (checksum s) (omega arith);
  seal_bytes = λ k iv m h. (omega arith, h);
  import_lem = λ raw x e h. rw h refl;
  export_lem = λ k h. rw h refl;
  export_refused = λ k h. rw h refl;
  encrypt_lem = λ iv k m h. rw h refl;
  decrypt_lem = λ iv k m h. rw h (open_seal-seal k.handle m);
  shared_comm = λ a b ha hb.
      unfold head_or replicate in ap (λ t. ok (t ∷ [])) (mul_comm (checksum a) (checksum b));
  shared_defined = λ a b ha hb. (_, refl);
  parse-stringify = λ m. rw (decode-encode (length m.file_name ∷ m.file_name ++ m.mime_type)) (
      unfold parse in
      rw (take-length_append (length m.file_name) m.file_name m.mime_type refl)
        (rw (drop-length_append (length m.file_name) m.file_name m.mime_type refl)));
}
