-- ===== src/Crypto/Attachments.antt =====
-- frontend/src/shared/crypto/peerKeys.ts, the functions over recipients: group keys, the recipients
-- of an attachment, wrapping file keys for them, and group messages. `httpGet` and
-- `getPeerPublicKey` enter as the values that they resolve to.
pub mod Recipients
pub mod Upload
use nothingapp.Common.{
  ℕ, ◌==◌, ◌<◌, Bool, true, false, not, Option, none, some, List, [], ◌∷◌, map, Str, codes,
  is_empty, keep, any_of, length, if◌then◌else◌, or_else,
}
use nothingapp.Crypto.Platform.{
  Bytes, CryptoKey, Platform, AttachmentMetadata, missing_key, no_recipients, members_missing,
  sender_missing, no_source_key,
}
use nothingapp.Crypto.Async.{Async, pure, throw, ◌>>=◌}
use nothingapp.Crypto.E2e.{
  GroupRecipientKey, GroupEnvelope, derive_chat_key, encrypt_for_group, public_key_base64,
  generate_file_key, encrypt_file, encrypt_metadata, wrap_file_key, unwrap_file_key,
}
use nothingapp.Crypto.PeerKeys.{get_chat_key}

pub record GroupMember : Type 0 where
  pub user_id : ℕ
  pub public_key : Str

pub record GroupKeyStatus : Type 0 where
  pub recipients : List GroupRecipientKey
  pub missing_user_ids : List ℕ

-- The response is none when the request fails, and its `members` may be absent.
unfoldable pub get_group_key_status : Option (Option (List GroupMember)) → Option GroupKeyStatus
get_group_key_status none = none
get_group_key_status (some members) =
    let recipients =
      map (λ m. record { user_id = m.user_id; public_key = m.public_key }) (or_else members []) in
    some (record {
      recipients = recipients;
      missing_user_ids = map (λ r. r.user_id) (keep (λ r. is_empty r.public_key) recipients);
    })

pub record AttachmentEnvelope : Type 0 where
  pub recipient_id : ℕ
  pub encrypted_file_key : Str
  pub iv : Str

pub record PreparedAttachment : Type 0 where
  pub ciphertext : Bytes
  pub file_iv : Str
  pub encrypted_metadata : Str
  pub metadata_iv : Str
  pub envelopes : List AttachmentEnvelope

-- A `File` of the browser.
pub record FileInput : Type 0 where
  pub content : Bytes
  pub name : Str
  pub mime : Str

pub record RecipientArgs : Type 0 where
  pub is_group : Bool
  pub group_recipients : Option (List GroupRecipientKey)
  pub peer_user_id : Option ℕ
  pub sender_user_id : ℕ
  pub sender_account_key : CryptoKey

pub record RewrapArgs : Type 0 where
  pub own_encrypted_file_key : Str
  pub own_envelope_iv : Str
  pub source_sender_user_id : ℕ
  pub recipients : List GroupRecipientKey
  pub account_key : CryptoKey

module _ (p : Platform) where
  -- The group branch of `resolveAttachmentRecipients`.
  pub group_recipients_of :
      Option (List GroupRecipientKey) → Async (Option (List GroupRecipientKey))
  group_recipients_of none = pure none
  group_recipients_of (some rs) = if is_empty rs then pure none else pure (some rs)

  -- Its branch for two users, whose keys are known.
  pub pair_recipients : ℕ → ℕ → Str → CryptoKey → Async (Option (List GroupRecipientKey))
  pair_recipients peer sender peer_key account_key = do
    self_key ← public_key_base64 p account_key
    if peer == sender
        then pure (some (record { user_id = sender; public_key = self_key } ∷ []))
        else pure (
            some (
              record { user_id = sender; public_key = self_key }
              ∷ record { user_id = peer; public_key = peer_key }
              ∷ []))

  -- `peer_key` is what `getPeerPublicKey` resolves to.
  pub resolve_attachment_recipients :
      (ℕ → Option Str) → RecipientArgs → Async (Option (List GroupRecipientKey))
  resolve_attachment_recipients peer_key args =
      if args.is_group then group_recipients_of args.group_recipients else elim args.peer_user_id [
        | none ↦ pure none
        | some peer ↦ if peer == 0 then pure none else elim (peer_key peer) [
          | none ↦ pure none
          | some key ↦
              if is_empty key
              then pure none
              else pair_recipients peer args.sender_user_id key args.sender_account_key
        ]
      ]

  -- The loop of `rewrapAttachmentEnvelopes` and of `prepareAttachmentForUpload`.
  pub wrap_for : CryptoKey → CryptoKey → List GroupRecipientKey → Async (List AttachmentEnvelope)
  wrap_for account_key file_key [] = pure []
  wrap_for account_key file_key (r ∷ rs) =
      if is_empty r.public_key then throw (missing_key r.user_id) else do
        chat_key ← derive_chat_key p account_key r.public_key
        wrapped ← wrap_file_key p file_key chat_key
        rest ← wrap_for account_key file_key rs
        pure (
            record {
              recipient_id = r.user_id;
              encrypted_file_key = wrapped.encrypted_file_key;
              iv = wrapped.iv;
            }
            ∷ rest)

  -- `rewrapAttachmentEnvelopes` once the source chat key is known.
  pub rewrap_with : Option CryptoKey → RewrapArgs → Async (List AttachmentEnvelope)
  rewrap_with none args = throw no_source_key
  rewrap_with (some source_chat_key) args = do
    file_key ←
        unwrap_file_key p args.own_encrypted_file_key args.own_envelope_iv source_chat_key true
    wrap_for args.account_key file_key args.recipients

  pub rewrap_attachment_envelopes : (ℕ → Option Str) → RewrapArgs → Async (List AttachmentEnvelope)
  rewrap_attachment_envelopes peer_key args = do
    source ← get_chat_key p peer_key (some args.account_key) (some args.source_sender_user_id)
    rewrap_with source args

  pub prepare_attachment_for_upload :
      FileInput → List GroupRecipientKey → CryptoKey → Async PreparedAttachment
  prepare_attachment_for_upload file recipients sender_account_key =
      if is_empty recipients then throw no_recipients else do
        file_key ← generate_file_key p
        body ← encrypt_file p file.content file_key
        meta ←
            encrypt_metadata p
              (record {
                file_name = file.name;
                mime_type =
                    if is_empty file.mime then codes "application/octet-stream" else file.mime;
              })
              file_key
        envelopes ← wrap_for sender_account_key file_key recipients
        pure (record {
          ciphertext = body.ciphertext;
          file_iv = body.iv;
          encrypted_metadata = meta.ciphertext;
          metadata_iv = meta.iv;
          envelopes = envelopes;
        })

  pub encrypt_group_message : Str → GroupKeyStatus → CryptoKey → ℕ → Async (List GroupEnvelope)
  encrypt_group_message plaintext status account_key sender_user_id =
      if is_empty status.missing_user_ids
      then if any_of (λ r. r.user_id == sender_user_id) status.recipients
        then encrypt_for_group p plaintext status.recipients account_key
        else throw sender_missing
      else throw (members_missing (length status.missing_user_ids))
