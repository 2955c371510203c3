-- ===== src/Composer/Forward.antt =====
-- ChatWindow.tsx: `handleForwardToChat`, before, during and after its requests. What the server
-- answers is a parameter: `fetched` is the response about a group's keys, `posted` whether the
-- forwarding request succeeded.
use nothingapp.Common.{
  ℕ, ◌==◌, Bool, true, false, not, ◌&&◌, Option, none, some, List, [], ◌∷◌, Str, codes, trim,
  is_empty, keep, if◌then◌else◌, or_else,
}
use nothingapp.Crypto.Platform.{CryptoKey, Platform, Result, ok, err}
use nothingapp.Crypto.Async.{Async, pure, ◌>>=◌}
use nothingapp.Crypto.E2e.{GroupRecipientKey, encrypt_message}
use nothingapp.Crypto.PeerKeys.{get_chat_key}
use nothingapp.Crypto.Attachments.{
  GroupMember, GroupKeyStatus, AttachmentEnvelope, get_group_key_status, encrypt_group_message,
  resolve_attachment_recipients, rewrap_attachment_envelopes,
}
use nothingapp.Chats.Thread.{Message, Attachment, ChatItem}
use nothingapp.Chats.Incoming.{Encrypted}
use nothingapp.Composer.{
  Window, Notice, no_encryption, nothing_to_forward, forward_members_missing, forward_peer_missing,
  forward_no_peer, forward_failed, forwarded, truthy, notify,
}

pub record ForwardAttachment : Type 0 where
  pub source_attachment_id : ℕ
  pub envelopes : List AttachmentEnvelope

pub record ForwardPayload : Type 0 where
  pub body : Encrypted
  pub forwarded_from : ℕ
  pub attachments : Option (List ForwardAttachment)

pub record ForwardJob : Type 0 where
  pub source : Message
  pub attachments : List Attachment
  pub text : Str
  pub account : CryptoKey
  pub me : ℕ

pub data ForwardStart : Type 0 where
  idle : ForwardStart
  refused : Notice → ForwardStart
  started : ForwardJob → ForwardStart

-- The attachments of which the user holds an own envelope.
unfoldable pub can_rewrap : Attachment → Bool
can_rewrap a =
    not (a.id == 0)
    && not (is_empty (or_else a.encrypted_file_key []))
    && not (is_empty (or_else a.envelope_iv []))

-- `text.trim() || (hasAttachments ? ' ' : '')`.
unfoldable pub forward_text : Str → List Attachment → Str
forward_text text attachments =
    let spare = if is_empty attachments then [] else codes " " in
    if is_empty (trim text) then spare else trim text

-- The first author: `forwarded_from_user_id || user_id`.
unfoldable pub original_author : Message → ℕ
original_author m = or_else (truthy m.forwarded_from_user_id) m.user_id

unfoldable pub forward_job : Message → CryptoKey → ℕ → ForwardStart
unfolding can_rewrap forward_text
forward_job m account me =
    let attachments = keep can_rewrap m.attachments in
    let text = forward_text m.text attachments in
    if is_empty text
    then refused nothing_to_forward
    else started
        (record { source = m; attachments = attachments; text = text; account = account; me = me })

abbrev start_with : Message → Option CryptoKey → Option ℕ → ForwardStart
start_with m (some account) (some me) =
    if me == 0 then refused no_encryption else forward_job m account me
start_with m _ _ = refused no_encryption

unfoldable pub check_forward : Window → ForwardStart
unfolding forward_job
check_forward w = elim w.forwarding_message [ none ↦ idle | some m ↦ start_with m w.account w.me ]

unfoldable pub begin_forward : Window → Window × Option ForwardJob
unfolding check_forward
begin_forward w = elim (check_forward w) [
  | idle ↦ (w, none)
  | refused n ↦ (notify n w, none)
  | started job ↦ (record w { forwarding = true }, some job)
]

-- What the encryption ends with: a payload for the server, or a toast.
pub data Forwarding : Type 0 where
  payload : ForwardPayload → Forwarding
  stopped : Notice → Forwarding

unfoldable pub payload_of : ForwardJob → Encrypted → Option (List ForwardAttachment) → Forwarding
unfolding original_author
payload_of job body attachments =
    payload (record {
      body = body;
      forwarded_from = original_author job.source;
      attachments = attachments;
    })

module _ (p : Platform) where
  -- The requests of `Promise.all`, one after the other.
  unfoldable pub rewrap_all :
      (ℕ → Option Str)
      → ForwardJob
      → List GroupRecipientKey
      → List Attachment
      → Async (List ForwardAttachment)
  rewrap_all peer_key job recipients [] = pure []
  rewrap_all peer_key job recipients (a ∷ rest) = do
    envelopes ← rewrap_attachment_envelopes p peer_key (record {
      own_encrypted_file_key = or_else a.encrypted_file_key [];
      own_envelope_iv = or_else a.envelope_iv [];
      source_sender_user_id = job.source.user_id;
      recipients = recipients;
      account_key = job.account;
    })
    others ← rewrap_all peer_key job recipients rest
    pure (record { source_attachment_id = a.id; envelopes = envelopes } ∷ others)

  unfoldable pub attach :
      (ℕ → Option Str) → ForwardJob → Encrypted → Option (List GroupRecipientKey) → Async Forwarding
  unfolding rewrap_all payload_of
  attach peer_key job body none = pure (payload_of job body none)
  attach peer_key job body (some recipients) =
      if is_empty job.attachments then pure (payload_of job body none) else do
        attachments ← rewrap_all peer_key job recipients job.attachments
        pure (payload_of job body (some attachments))

  unfoldable pub forward_to_group :
      (ℕ → Option Str) → ForwardJob → Option GroupKeyStatus → Async Forwarding
  unfolding attach
  forward_to_group peer_key job none = pure (stopped forward_members_missing)
  forward_to_group peer_key job (some status) =
      if not (is_empty status.missing_user_ids) then pure (stopped forward_members_missing) else do
        envelopes ← encrypt_group_message p job.text status job.account job.me
        attach peer_key job
            (record { text = []; scheme = some 2; iv = none; envelopes = some envelopes })
            (some status.recipients)

  unfoldable pub forward_with :
      (ℕ → Option Str) → ForwardJob → ℕ → Option CryptoKey → Async Forwarding
  unfolding attach
  forward_with peer_key job peer none = pure (stopped forward_peer_missing)
  forward_with peer_key job peer (some chat_key) = do
    sealed ← encrypt_message p job.text chat_key
    recipients ← resolve_attachment_recipients p peer_key (record {
      is_group = false;
      group_recipients = none;
      peer_user_id = some peer;
      sender_user_id = job.me;
      sender_account_key = job.account;
    })
    attach peer_key job
        (record {
          text = sealed.ciphertext;
          scheme = some 2;
          iv = some sealed.iv;
          envelopes = none;
        })
        recipients

  unfoldable pub forward_to_peer : (ℕ → Option Str) → ForwardJob → Option ℕ → Async Forwarding
  unfolding forward_with
  forward_to_peer peer_key job none = pure (stopped forward_no_peer)
  forward_to_peer peer_key job (some peer) = do
    chat_key ← get_chat_key p peer_key (some job.account) (some peer)
    forward_with peer_key job peer chat_key

  unfoldable pub encrypt_forward :
      (ℕ → Option Str)
      → Option (Option (List GroupMember))
      → ChatItem
      → ForwardJob
      → Async Forwarding
  unfolding forward_to_group forward_to_peer get_group_key_status
  encrypt_forward peer_key fetched dest job =
      if dest.is_group
      then forward_to_group peer_key job (get_group_key_status fetched)
      else forward_to_peer peer_key job (truthy dest.other_user_id)

-- The end of the handler, with what is posted to the server.
unfoldable pub finish_forward : Result Forwarding → Bool → Window → Window × Option ForwardPayload
finish_forward (err e) posted w = (notify forward_failed (record w { forwarding = false }), none)
finish_forward (ok (stopped n)) posted w = (notify n (record w { forwarding = false }), none)
finish_forward (ok (payload f)) posted w =
    if posted
    then (notify forwarded (record w { forwarding_message = none; forwarding = false }), some f)
    else (notify forward_failed (record w { forwarding = false }), some f)
