-- ===== src/Composer/Submit.antt =====
-- ChatWindow.tsx: `handleSubmit`, before its `await` and after it. What comes before takes a
-- snapshot of the state, the `Job`, as the closure does; what comes after acts on the state of that
-- time. `accepted` is what `send` returns.
use nothingapp.Common.{
  ℕ, ◌==◌, Bool, true, false, not, ◌&&◌, Option, none, some, List, [], ◌∷◌, Str, codes, trim,
  is_empty, is_some, find_first, if◌then◌else◌,
}
use nothingapp.Crypto.Platform.{
  CryptoKey, Platform, Result, ok, err, Error, no_chat_key, no_recipient,
}
use nothingapp.Crypto.Async.{Async, pure, throw, ◌>>=◌}
use nothingapp.Crypto.E2e.{encrypt_message}
use nothingapp.Crypto.PeerKeys.{get_chat_key}
use nothingapp.Crypto.Attachments.{GroupKeyStatus, encrypt_group_message}
use nothingapp.Chats.Thread.{Message}
use nothingapp.Chats.Incoming.{Encrypted, is_scheme2}
use nothingapp.Composer.{
  Window, E2eStatus, loading, ready, not_ready, send_message, edit_message, Notice, choose_chat,
  nothing_to_send, disconnected, no_encryption, checking, members_not_ready, cannot_edit,
  peer_without_key, encryption_failed, no_peer, edit_not_sent, message_not_sent, truthy, notify,
}
use nothingapp.Composer.Drafts.{drop_draft}

-- The recipients as the guards leave them: the group's status with the sender's id, or the peer.
pub data Audience : Type 0 where
  group : GroupKeyStatus → ℕ → Audience
  pair : Option ℕ → Audience

pub record Job : Type 0 where
  pub chat : ℕ
  pub text : Str
  pub account : CryptoKey
  pub audience : Audience
  pub editing : Option ℕ
  pub reply_to : Option ℕ

unfoldable pub audience_of : Window → Option GroupKeyStatus → Audience
audience_of w status =
    if w.is_group
    then elim (truthy w.me) [
      | none ↦ pair none
      | some me ↦ elim status [ none ↦ pair none | some s ↦ group s me ]
    ]
    else pair w.other_user

-- `text || ' '`.
unfoldable pub or_space : Str → Str
or_space text = if is_empty text then codes " " else text

-- Whether the message that is edited is one that cannot be: it is there, and not of scheme 2.
unfoldable pub not_editable : Option ℕ → List Message → Bool
not_editable none ms = false
not_editable (some id) ms = elim (find_first (λ m. m.id == id) ms) [
  | none ↦ false
  | some m ↦ not (is_scheme2 m.scheme)
]

pub data Start : Type 0 where
  refused : Notice → Start
  started : Job → Start

-- The guards after those on the connection.
unfoldable pub ready_job : Window → ℕ → Str → Option CryptoKey → E2eStatus → Start
unfolding audience_of not_editable or_space
ready_job w chat text none status = refused no_encryption
ready_job w chat text (some account) loading = refused checking
ready_job w chat text (some account) (not_ready names) = refused (members_not_ready names)
ready_job w chat text (some account) (ready status) =
    let editing = truthy w.editing in
    if not_editable editing w.messages
    then refused cannot_edit
    else started (record {
      chat = chat;
      text = if is_some editing then text else or_space text;
      account = account;
      audience = audience_of w status;
      editing = editing;
      reply_to = w.reply_to;
    })

unfoldable pub check_submit : Window → Start
unfolding ready_job
check_submit w =
    let text = trim w.text in
    elim (truthy w.chat) [
      | none ↦ refused choose_chat
      | some chat ↦
          if is_empty text && is_empty w.files
          then refused nothing_to_send
          else if w.connected
          then ready_job w chat text w.account w.status
          else refused disconnected
    ]

-- The window while the body is encrypted: a new message keeps its files for later.
unfoldable pub wait_for : Job → Window → Window
wait_for job w = elim job.editing [
  | some id ↦ w
  | none ↦ record w {
    sending = true;
    pending_upload = if is_empty w.files then w.pending_upload else some (job.chat, w.files);
  }
]

unfoldable pub begin_submit : Window → Window × Option Job
unfolding check_submit wait_for
begin_submit w = elim (check_submit w) [
  | refused n ↦ (notify n w, none)
  | started job ↦ (wait_for job w, some job)
]

module _ (p : Platform) where
  unfoldable pub seal_for : Str → Option CryptoKey → Async Encrypted
  seal_for text none = throw no_chat_key
  seal_for text (some key) = do
    sealed ← encrypt_message p text key
    pure (record {
      text = sealed.ciphertext;
      scheme = some 2;
      iv = some sealed.iv;
      envelopes = none;
    })

  -- `peer_key` is what `getPeerPublicKey` resolves to.
  unfoldable pub encrypt_for : (ℕ → Option Str) → Str → CryptoKey → Audience → Async Encrypted
  unfolding seal_for
  encrypt_for peer_key text account (group status me) = do
    envelopes ← encrypt_group_message p text status account me
    pure (record { text = []; scheme = some 2; iv = none; envelopes = some envelopes })
  encrypt_for peer_key text account (pair none) = throw no_recipient
  encrypt_for peer_key text account (pair (some peer)) = do
    chat_key ← get_chat_key p peer_key (some account) (some peer)
    seal_for text chat_key

  abbrev pub encrypt_body : (ℕ → Option Str) → Job → Async Encrypted
  encrypt_body peer_key job = encrypt_for peer_key job.text job.account job.audience

-- The toast of an edit that could not be encrypted.
unfoldable pub edit_failure : Error → Notice
edit_failure no_chat_key = peer_without_key
edit_failure no_recipient = no_peer
edit_failure _ = encryption_failed

unfoldable pub finish_edit : Job → ℕ → Result Encrypted → Bool → Window → Window
unfolding edit_failure
finish_edit job id (err e) accepted w = notify (edit_failure e) w
finish_edit job id (ok body) accepted w =
    if accepted
    then record w {
      sent = edit_message job.chat id body ∷ w.sent;
      text = [];
      editing = none;
      storage = drop_draft (some job.chat) w.storage;
    }
    else notify edit_not_sent w

unfoldable pub finish_send : Job → Result Encrypted → Bool → Window → Window
finish_send job (err e) accepted w =
    notify encryption_failed (record w { pending_upload = none; sending = false })
finish_send job (ok body) accepted w =
    if accepted
    then record w {
      sent = send_message job.chat body job.reply_to ∷ w.sent;
      text = [];
      reply_to = none;
      files = [];
      storage = drop_draft (some job.chat) w.storage;
    }
    else notify message_not_sent (record w { sending = false; pending_upload = none })

unfoldable pub finish_submit : Job → Result Encrypted → Bool → Window → Window
unfolding finish_edit finish_send
finish_submit job r accepted w = elim job.editing [
  | some id ↦ finish_edit job id r accepted w
  | none ↦ finish_send job r accepted w
]

-- The continuation, where there is one.
unfoldable pub complete : Platform → (ℕ → Option Str) → ℕ → Bool → Window × Option Job → Window
unfolding finish_submit encrypt_for
complete p peer_key draw accepted (w, none) = w
complete p peer_key draw accepted (w, some job) =
    finish_submit job (encrypt_body p peer_key job draw).0 accepted w

-- A submission during which nothing else happens; the number is the next draw of random bytes.
unfoldable pub submit : Platform → (ℕ → Option Str) → ℕ → Bool → Window → Window
unfolding begin_submit complete
submit p peer_key draw accepted w = complete p peer_key draw accepted (begin_submit w)
