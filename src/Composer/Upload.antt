-- ===== src/Composer/Upload.antt =====
-- ChatWindow.tsx: the effect that uploads the files of a message, once the server's broadcast has
-- brought the message back, and its `doUpload`.
use nothingapp.Common.{
  ℕ, ◌==◌, Bool, true, false, Option, none, some, List, [], ◌∷◌, Str, is_empty, length, leb,
  if◌then◌else◌,
}
use nothingapp.Crypto.Platform.{CryptoKey, Platform, no_recipient}
use nothingapp.Crypto.Async.{Async, pure, throw, ◌>>=◌}
use nothingapp.Crypto.E2e.{GroupRecipientKey}
use nothingapp.Crypto.Attachments.{
  GroupKeyStatus, FileInput, PreparedAttachment, resolve_attachment_recipients,
  prepare_attachment_for_upload,
}
use nothingapp.Chats.Thread.{Message}
use nothingapp.Composer.{Window, E2eStatus, ready, upload_failed, notify}

abbrev pub last_of {ℓ} : {A : Type ℓ} → List A → Option A
last_of [] = none
last_of (x ∷ []) = some x
last_of (x ∷ y ∷ xs) = last_of (y ∷ xs)

abbrev pub is_mine : Option ℕ → Message → Bool
is_mine none m = false
is_mine (some me) m = m.user_id == me

pub record UploadJob : Type 0 where
  pub chat : ℕ
  pub message : ℕ
  pub files : List FileInput

-- The own message that the list ends with, when the list has grown.
unfoldable pub new_own : ℕ → Window → Option Message
new_own prev_len w = if leb (length w.messages) prev_len then none else elim (last_of w.messages) [
  | none ↦ none
  | some m ↦ if is_mine w.me m then some m else none
]

-- The files that wait for this message.
unfoldable pub files_for : Message → Option (ℕ × List FileInput) → Option (List FileInput)
files_for m none = none
files_for m (some (chat, files)) =
    if m.chat_id == chat then (if is_empty files then none else some files) else none

-- The effect on `messages`; `prev_len` is the length that it saw before.
unfoldable pub on_messages : ℕ → Window → Window × Option UploadJob
unfolding new_own files_for
on_messages prev_len w = elim (new_own prev_len w) [
  | none ↦ (w, none)
  | some m ↦ elim (files_for m w.pending_upload) [
    | none ↦ (record w { sending = false }, none)
    | some files ↦ (
      record w { sending = false; pending_upload = none; uploading = true },
      some (record { chat = m.chat_id; message = m.id; files = files }),
    )
  ]
]

abbrev group_recipients : Option GroupKeyStatus → Option (List GroupRecipientKey)
group_recipients none = none
group_recipients (some s) = some s.recipients

module _ (p : Platform) where
  -- The loop over the files.
  unfoldable pub prepare_all :
      CryptoKey → List GroupRecipientKey → List FileInput → Async (List PreparedAttachment)
  prepare_all account recipients [] = pure []
  prepare_all account recipients (f ∷ fs) = do
    prepared ← prepare_attachment_for_upload p f recipients account
    rest ← prepare_all account recipients fs
    pure (prepared ∷ rest)

  unfoldable pub prepare_for :
      CryptoKey → List FileInput → Option (List GroupRecipientKey) → Async (List PreparedAttachment)
  unfolding prepare_all
  prepare_for account files none = throw no_recipient
  prepare_for account files (some recipients) = prepare_all account recipients files

  -- The body of the upload, up to its request.
  unfoldable pub prepare_upload :
      (ℕ → Option Str)
      → Bool
      → Option ℕ
      → Option ℕ
      → Option CryptoKey
      → E2eStatus
      → List FileInput
      → Async (List PreparedAttachment)
  unfolding prepare_for
  prepare_upload peer_key is_group other (some me) (some account) (ready status) files = do
    recipients ← resolve_attachment_recipients p peer_key (record {
      is_group = is_group;
      group_recipients = group_recipients status;
      peer_user_id = other;
      sender_user_id = me;
      sender_account_key = account;
    })
    prepare_for account files recipients
  prepare_upload peer_key is_group other me account status files = throw no_recipient

-- The end of `doUpload`: `posted` is whether everything up to the response of the server went well.
unfoldable pub finish_upload : Bool → Window → Window
finish_upload posted w =
    let v = record w { uploading = false } in if posted then v else notify upload_failed v
