-- ===== src/Crypto/Attachments/Upload.antt =====
-- Uploading and forwarding an attachment: who can open what the functions return.
use nothingapp.Common.{
  ℕ, suc, ◌==◌, ◌≡◌, ◌≢◌, ◌∙◌, refl, ap, Bool, true, false, Option, some, List, [], ◌∷◌, Str, All,
  is_empty, length, any_of, Bool-cases, inl, inr,
}
use nothingapp.Crypto.Platform.{Bytes, IsBytes, CryptoKey, Platform, Lawful, AttachmentMetadata, ok}
use nothingapp.Crypto.Async.{>>=-eq-ok}
use nothingapp.Crypto.E2e.{
  account_key_bytes, GroupRecipientKey, derive_chat_key, unwrap_file_key, wrap_file_key,
  decrypt_file, decrypt_metadata, generate_file_key,
}
use nothingapp.Crypto.E2e.ChatKey.{
  public_of, secret_of, chat_key_of, derive_chat_key_lem, secret_defined, secret_comm,
  public_nonempty,
}
use nothingapp.Crypto.E2e.Group.{Member, recipients_of}
use nothingapp.Crypto.E2e.Files.{
  mime_or_default, file_key_of, sealed_file_of, encrypt_file_lem, decrypt_file-sealed_file_of,
  sealed_metadata_of, encrypt_metadata_lem, decrypt_metadata-sealed_metadata_of, wrapped_key_of,
  wrap_file_key_lem, unwrap_file_key-wrapped_key_of,
}
use nothingapp.Crypto.PeerKeys.{get_chat_key}
use nothingapp.Crypto.Attachments.{
  AttachmentEnvelope, PreparedAttachment, FileInput, wrap_for, rewrap_with,
  rewrap_attachment_envelopes, prepare_attachment_for_upload,
}

module _ (p : Platform) where
  -- The envelopes go to these users in order, and each unwraps the file key with this material from
  -- the own one, with the chat key derived from the public key of the user who wrapped it.
  abbrev pub Unwraps : Bytes → CryptoKey → Bool → ℕ → List Member → List AttachmentEnvelope → Type 0
  Unwraps raw sender extractable later [] [] = Unit
  Unwraps raw sender extractable later (m ∷ ms) (e ∷ es) =
      (e.recipient_id ≡ m.id)
      × ((k : CryptoKey) × (derive_chat_key p m.key (public_of p sender) later ≡ (ok k, later))
          × (unwrap_file_key p e.encrypted_file_key e.iv k extractable later
              ≡ (ok (file_key_of raw extractable), later)))
      × Unwraps raw sender extractable later ms es
  Unwraps raw sender extractable later [] (e ∷ es) = ⊥
  Unwraps raw sender extractable later (m ∷ ms) [] = ⊥

module _ (p : Platform) (l : Lawful p) where
  wrap_for-Unwraps :
      (sender file_key : CryptoKey) (extractable : Bool) (ms : List Member) (w later : ℕ)
      → IsBytes file_key.handle
      → length file_key.handle ≡ account_key_bytes
      → file_key.extractable ≡ true
      → sender.extractable ≡ true
      → All (λ m. m.key.extractable ≡ true) ms
      → (es : List AttachmentEnvelope) × (v : ℕ) × (wrap_for p sender file_key
            (recipients_of p ms)
            w
          ≡ (ok es, v))
        × Unwraps p file_key.handle sender extractable later ms es
  unfolding wrap_for
  wrap_for-Unwraps sender file_key x [] w later hb n hf hs hm = ([], w, refl, tt)
  wrap_for-Unwraps sender file_key x (m ∷ ms) w later hb n hf hs hm =
      let (s, e) = secret_defined p l sender m.key in
      let k = chat_key_of p s in
      let raw = file_key.handle in
      let (es, v, rest, unwraps) =
        wrap_for-Unwraps sender file_key x ms (suc w) later hb n hf hs hm.1 in
      let env : AttachmentEnvelope = record {
        recipient_id = m.id;
        encrypted_file_key = (wrapped_key_of p l raw k w).encrypted_file_key;
        iv = (wrapped_key_of p l raw k w).iv;
      } in
      (
        env ∷ es,
        v,
        rw (public_nonempty p l m.key) (
            rw (derive_chat_key_lem p l sender m.key s w hs e)
              (rw (wrap_file_key_lem p l file_key k w hf refl) (rw rest))),
        (
          refl,
          (
            k,
            derive_chat_key_lem p l m.key sender s later hm.0 (secret_comm p l m.key sender ∙ e),
            unwrap_file_key-wrapped_key_of p l raw k x w later hb n refl,
          ),
          unwraps,
        ),
      )

  -- An attachment that is prepared for a non-empty group: every member unwraps the file key from
  -- the own envelope, and with the unwrapped key the body decrypts to the file's bytes and the
  -- metadata to the file's name and its mime type, or the default one. (The account keys are
  -- exportable.)
  pub prepare_attachment_for_upload-Unwraps :
      (file : FileInput) (sender : CryptoKey) (m : Member) (ms : List Member) (w later : ℕ)
      → sender.extractable ≡ true
      → All (λ m. m.key.extractable ≡ true) (m ∷ ms)
      → let mime = mime_or_default file.mime in
        (a : PreparedAttachment) × (raw : Bytes) × ((prepare_attachment_for_upload p file
            (recipients_of p (m ∷ ms))
            sender
            w).0
          ≡ ok a)
        × Unwraps p raw sender false later (m ∷ ms) a.envelopes
        × (decrypt_file p a.ciphertext a.file_iv (file_key_of raw false) mime later
            ≡ (ok (record { content = file.content; mime = mime_or_default mime }), later))
        × (decrypt_metadata p a.encrypted_metadata a.metadata_iv (file_key_of raw false) later
            ≡ (ok (record { file_name = file.name; mime_type = mime }), later))
  unfolding prepare_attachment_for_upload generate_file_key
  prepare_attachment_for_upload-Unwraps file sender m ms w later hs hm =
      let raw = p.generate_key w in
      let key : CryptoKey = record {
        handle = raw;
        extractable = true;
        can_encrypt = true;
        can_decrypt = true;
      } in
      let meta : AttachmentMetadata = record {
        file_name = file.name;
        mime_type = mime_or_default file.mime;
      } in
      let (es, v, wrapped, unwraps) =
        wrap_for-Unwraps sender key false (m ∷ ms) (suc (suc (suc w))) later (l.generate_bytes w)
          (l.generate_length w) refl hs hm in
      (
        record {
          ciphertext = (sealed_file_of p l file.content key (suc w)).ciphertext;
          file_iv = (sealed_file_of p l file.content key (suc w)).iv;
          encrypted_metadata = (sealed_metadata_of p l meta key (suc (suc w))).ciphertext;
          metadata_iv = (sealed_metadata_of p l meta key (suc (suc w))).iv;
          envelopes = es;
        },
        raw,
        rw (encrypt_file_lem p l file.content key (suc w) refl)
            (rw (encrypt_metadata_lem p l meta key (suc (suc w)) refl) (rw wrapped)),
        unwraps,
        decrypt_file-sealed_file_of p l file.content key (file_key_of raw false) _ (suc w) later
            refl refl,
        decrypt_metadata-sealed_metadata_of p l meta key (file_key_of raw false) (suc (suc w)) later
            refl refl,
      )

  -- Forwarding: a user whose own envelope holds a file key, wrapped by the author of the source
  -- message, wraps that same key for the members of another chat, each of whom unwraps it. (The
  -- author's id is not 0 and the author's public key is known; the file key has 32 bytes; the
  -- account keys are exportable.)
  pub rewrap_attachment_envelopes-Unwraps :
      (peer_key : ℕ → Option Str) (me author : CryptoKey) (author_id : ℕ) (raw shared : Bytes)
      (ms : List Member) (extractable : Bool) (drawn w later : ℕ)
      → (author_id == 0) ≡ false
      → peer_key author_id ≡ some (public_of p author)
      → secret_of p me author ≡ ok shared
      → IsBytes raw
      → length raw ≡ account_key_bytes
      → me.extractable ≡ true
      → All (λ m. m.key.extractable ≡ true) ms
      → let own = wrapped_key_of p l raw (chat_key_of p shared) drawn in
        (es : List AttachmentEnvelope) × ((rewrap_attachment_envelopes p peer_key
            (record {
              own_encrypted_file_key = own.encrypted_file_key;
              own_envelope_iv = own.iv;
              source_sender_user_id = author_id;
              recipients = recipients_of p ms;
              account_key = me;
            })
            w).0
          ≡ ok es)
        × Unwraps p raw me extractable later ms es
  unfolding rewrap_attachment_envelopes rewrap_with get_chat_key
  rewrap_attachment_envelopes-Unwraps peer_key me author author_id raw shared ms x drawn w later
        real known secret hb n hme hm =
      let k = chat_key_of p shared in
      let (es, v, wrapped, unwraps) =
        wrap_for-Unwraps me (file_key_of raw true) x ms w later hb n refl hme hm in
      (
        es,
        rw (real, get_chat_key)
            (rw (known, get_chat_key)
              (rw (public_nonempty p l author) (
                rw (derive_chat_key_lem p l me author shared w hme secret) (
                  rw (unwrap_file_key-wrapped_key_of p l raw k true drawn w hb n refl)
                    (rw wrapped))))),
        unwraps,
      )

module _ (p : Platform) where
  -- No envelopes are returned when some recipient has no public key.
  pub wrap_for_strict :
      (sender file_key : CryptoKey) (rs : List GroupRecipientKey) (w : ℕ)
      → any_of (λ r. is_empty r.public_key) rs ≡ true
      → (es : List AttachmentEnvelope) → (wrap_for p sender file_key rs w).0 ≢ ok es
  unfolding wrap_for
  wrap_for_strict sender file_key [] w h es e = cc
  wrap_for_strict sender file_key (r ∷ rs) w h es e = elim (Bool-cases (is_empty r.public_key)) [
    | inl empty ↦ cc (rw empty at e)
    | inr full ↦
        let later : any_of (λ r. is_empty r.public_key) rs ≡ true = rw full at h in
        let (key, v, _, e') =
          >>=-eq-ok (derive_chat_key p sender r.public_key) _ w (rw full at e) in
        let (wrapped, u, _, e'') = >>=-eq-ok (wrap_file_key p file_key key) _ v e' in
        let (rest, t, tail, _) = >>=-eq-ok (wrap_for p sender file_key rs) _ u e'' in
        wrap_for_strict sender file_key rs u later rest (ap (λ r. r.0) tail)
  ]
