-- ===== src/Composer/Received.antt =====
-- An attachment from the upload of its sender to the view of a member: peerKeys.ts, the broadcast of
-- the envelopes in ChatsPage.tsx and MessageItem.tsx.
use nothingapp.Common.{
  ℕ, ◌==◌, ◌≡◌, refl, ap, true, false, Option, none, some, List, [], ◌∷◌, map, Str, All, is_empty,
  find_first, arith, Bool-cases, inl, inr,
}
use nothingapp.Crypto.Platform.{Bytes, CryptoKey, Platform, Lawful, ok}
use nothingapp.Crypto.E2e.{derive_chat_key, unwrap_file_key}
use nothingapp.Crypto.E2e.ChatKey.{public_of, public_nonempty}
use nothingapp.Crypto.E2e.Files.{file_key_of, mime_or_default}
use nothingapp.Crypto.E2e.Group.{Member, recipients_of}
use nothingapp.Crypto.Attachments.{
  AttachmentEnvelope, PreparedAttachment, FileInput, prepare_attachment_for_upload,
}
use nothingapp.Crypto.Attachments.Upload.{Unwraps, prepare_attachment_for_upload-Unwraps}
use nothingapp.Chats.Thread.{WireEnvelope, project_attachment}
use nothingapp.Chats.Incoming.{get_chat_key_lem}
use nothingapp.Composer.View.{SealedAttachment, show_body, show_with, decrypt_attachment}

abbrev pub wire_of : AttachmentEnvelope → WireEnvelope
wire_of e = record {
  recipient_id = e.recipient_id;
  encrypted_file_key = e.encrypted_file_key;
  iv = e.iv;
}

-- The attachment as the server broadcasts it, and as the client of this user keeps it.
abbrev pub received_by : ℕ → ℕ → PreparedAttachment → SealedAttachment
received_by id me a = record {
  attachment = project_attachment me (record {
    id = id;
    encrypted_file_key = none;
    envelope_iv = none;
    envelopes = some (map wire_of a.envelopes);
  });
  file_iv = some a.file_iv;
  encrypted_metadata = some a.encrypted_metadata;
  metadata_iv = some a.metadata_iv;
  has_url = true;
}

find-wire_of :
    (i : ℕ) (es : List AttachmentEnvelope) (e : AttachmentEnvelope)
    → find_first (λ x. x.recipient_id == i) es ≡ some e
    → find_first (λ (x : WireEnvelope). x.recipient_id == i) (map wire_of es) ≡ some (wire_of e)
find-wire_of i [] e h = cc
find-wire_of i (x ∷ xs) e h = elim (Bool-cases (x.recipient_id == i)) [
  | inl own ↦ let same : x ≡ e = ground (arith, own, h) in rw own (ap (λ y. some (wire_of y)) same)
  | inr other ↦ rw other (find-wire_of i xs e (rw other at h))
]

module _ (p : Platform) where
  -- The member's own envelope, and that it unwraps.
  find_envelope :
      (raw : Bytes) (sender : CryptoKey) (later : ℕ) (ms : List Member)
      (es : List AttachmentEnvelope) (m : Member)
      → Unwraps p raw sender false later ms es
      → find_first (λ x. x.id == m.id) ms ≡ some m
      → (e : AttachmentEnvelope) × (k : CryptoKey) × (find_first (λ x. x.recipient_id == m.id) es
          ≡ some e)
        × (derive_chat_key p m.key (public_of p sender) later ≡ (ok k, later))
        × (unwrap_file_key p e.encrypted_file_key e.iv k false later
            ≡ (ok (file_key_of raw false), later))
  find_envelope raw sender later [] [] m r h = cc
  find_envelope raw sender later [] (e ∷ es) m r h = absurd r
  find_envelope raw sender later (x ∷ xs) [] m r h = absurd r
  find_envelope raw sender later (x ∷ xs) (e ∷ es) m (same, (k, derived, opens), rest) h =
      elim (Bool-cases (x.id == m.id)) [
        | inl own ↦ let p' : x ≡ m = ground arith in (e, k, ground arith, rw (← p') derived, opens)
        | inr other ↦
            let (e', k', found, derived', opens') =
              find_envelope raw sender later xs es m rest (ground arith) in
            (e', k', ground arith, derived', opens')
      ]

projected :
    (id me : ℕ) (a : PreparedAttachment) (e : AttachmentEnvelope)
    → find_first (λ x. x.recipient_id == me) a.envelopes ≡ some e
    → (received_by id me a).attachment ≡ record {
      id = id;
      encrypted_file_key = some e.encrypted_file_key;
      envelope_iv = some e.iv;
      envelopes = some (map wire_of a.envelopes);
    }
unfolding project_attachment
projected id me a e h = rw (find-wire_of me a.envelopes e h, project_attachment) refl

default_mime :
    (mime : Str)
    → (mime_or_default (mime_or_default mime) ≡ mime_or_default mime)
      × (is_empty (mime_or_default mime) ≡ false)
default_mime [] = (refl, refl)
default_mime (c ∷ s) = (refl, refl)

module _ (p : Platform) (l : Lawful p) where
  -- A file arrives: what the sender prepares for the members of a chat is, after the server's
  -- broadcast, shown to every member who knows the sender's published key: with the file's name, its
  -- type (or the general one where it has none), and its content. (The account keys are exportable
  -- and the sender's id is not 0; the viewer is among the members.)
  pub decrypt_attachment-prepare :
      (file : FileInput) (sender : CryptoKey) (sender_id : ℕ) (m : Member) (ms : List Member)
      (reader : Member) (id w later : ℕ) (directory : ℕ → Option Str)
      → sender.extractable ≡ true
      → All (λ m. m.key.extractable ≡ true) (m ∷ ms)
      → find_first (λ x. x.id == reader.id) (m ∷ ms) ≡ some reader
      → (sender_id == 0) ≡ false
      → directory sender_id ≡ some (public_of p sender)
      → let mime = mime_or_default file.mime in
        (a : PreparedAttachment) × ((prepare_attachment_for_upload p file
            (recipients_of p (m ∷ ms))
            sender
            w).0
          ≡ ok a)
        × (decrypt_attachment p directory reader.key
              (some sender_id)
              (received_by id reader.id a)
              (some a.ciphertext)
              later
            ≡ (
              ok (record {
                file_name = file.name;
                mime_type = mime;
                blob = record { content = file.content; mime = mime };
              }),
              later,
            ))
  unfolding decrypt_attachment show_with show_body
  decrypt_attachment-prepare file sender sender_id m ms reader id w later directory hs hm member
        real known =
      let (a, raw, prepared, unwraps, body, meta) =
        prepare_attachment_for_upload-Unwraps p l file sender m ms w later hs hm in
      let (e, k, found, derived, opens) =
        find_envelope p raw sender later (m ∷ ms) a.envelopes reader unwraps member in
      let (twice, full) = default_mime file.mime in
      (
        a,
        prepared,
        rw
            (get_chat_key_lem p directory reader.key k sender_id later (public_of p sender) real
              known (public_nonempty p l sender) derived)
            (rw (projected id reader.id a e found)
              (rw opens (rw meta (rw full (rw body (rw twice refl)))))),
      )
