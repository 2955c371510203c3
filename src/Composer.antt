-- ===== src/Composer.antt =====
-- frontend/src/features/chats/ChatWindow.tsx: the window of the open chat, with its composer. The
-- state is the component's own and the props that it reads; a prop is none where it is undefined.
-- `sent` are the actions that the socket accepted, `notices` the toasts, newest first.
pub mod Status
pub mod Drafts
pub mod Submit
pub mod Delivery
pub mod Delivered
pub mod Outcome
pub mod Handlers
pub mod Upload
pub mod Uploaded
pub mod Forward
pub mod Forwarded
pub mod View
pub mod Received
pub mod Stale
mod Tests
use nothingapp.Common.{ℕ, ◌==◌, Bool, Option, none, some, List, ◌∷◌, Str, if◌then◌else◌}
use nothingapp.Common.Storage.{Storage}
use nothingapp.Crypto.Platform.{CryptoKey}
use nothingapp.Crypto.Attachments.{GroupKeyStatus, FileInput}
use nothingapp.Chats.Thread.{Message}
use nothingapp.Chats.Incoming.{Encrypted}

pub data E2eStatus : Type 0 where
  loading : E2eStatus
  ready : Option GroupKeyStatus → E2eStatus
  not_ready : List Str → E2eStatus

pub data ConfirmAction : Type 0 where
  clear : ConfirmAction
  delete_chat : ConfirmAction
  delete_message : ℕ → ConfirmAction

-- The actions of `WSMessageAction` that the window sends; a body is its text, scheme, IV and
-- envelopes.
pub data WsAction : Type 0 where
  send_message : ℕ → Encrypted → Option ℕ → WsAction
  edit_message : ℕ → ℕ → Encrypted → WsAction
  delete_request : ℕ → ℕ → WsAction

pub data Notice : Type 0 where
  choose_chat nothing_to_send disconnected no_encryption checking cannot_edit : Notice
  members_not_ready : List Str → Notice
  peer_without_key encryption_failed no_peer edit_not_sent message_not_sent upload_failed : Notice
  nothing_to_forward forward_members_missing forward_peer_missing forward_no_peer : Notice
  forward_failed forwarded : Notice

pub record Window : Type 0 where
  pub chat : Option ℕ
  pub is_group : Bool
  pub other_user : Option ℕ
  pub me : Option ℕ
  -- `accountKeyCtx.state.key` when its status is 'ready'.
  pub account : Option CryptoKey
  pub connected : Bool
  pub messages : List Message
  pub text : Str
  pub reply_to : Option ℕ
  pub editing : Option ℕ
  pub files : List FileInput
  pub sending : Bool
  pub uploading : Bool
  pub status : E2eStatus
  pub pending_upload : Option (ℕ × List FileInput)
  pub confirm : Option ConfirmAction
  pub forwarding_message : Option Message
  pub forwarding : Bool
  pub storage : Storage
  pub sent : List WsAction
  pub notices : List Notice

-- The test of `if (!id)`: 0 counts as no id.
abbrev pub truthy : Option ℕ → Option ℕ
truthy none = none
truthy (some n) = if n == 0 then none else some n

abbrev pub notify : Notice → Window → Window
notify n w = record w { notices = n ∷ w.notices }
