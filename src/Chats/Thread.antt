-- ===== src/Chats/Thread.antt =====
-- frontend/src/shared/api/types.ts and frontend/src/pages/ChatsPage.tsx: messages, chats and events,
-- and the updates of one message list.
use nothingapp.Common.{
  ℕ, ◌==◌, Bool, Option, none, some, List, [], ◌∷◌, ◌++◌, map, Str, any_of, find_first,
  if◌then◌else◌, ltb, length, drop, ◌-◌, or_else,
}

pub record WireEnvelope : Type 0 where
  pub recipient_id : ℕ
  pub encrypted_file_key : Str
  pub iv : Str

-- `envelopes` is what the broadcast carries, the other two are what the views look at.
pub record Attachment : Type 0 where
  pub id : ℕ
  pub encrypted_file_key : Option Str
  pub envelope_iv : Option Str
  pub envelopes : Option (List WireEnvelope)

pub record Message : Type 0 where
  pub id : ℕ
  pub chat_id : ℕ
  pub user_id : ℕ
  pub text : Str
  pub is_system : Bool
  pub scheme : Option ℕ
  pub reply_to_id : Option ℕ
  pub forwarded_from_user_id : Option ℕ
  pub edited_at : Option Str
  pub is_deleted : Bool
  pub created_at : Str
  pub attachments : List Attachment

pub record ChatItem : Type 0 where
  pub id : ℕ
  pub is_group : Bool
  pub other_user_id : Option ℕ
  pub last_message : Str
  pub unread_count : ℕ
  pub updated_at : Str

-- The event 'new', but for its ciphertext; `text` comes with its decryption.
pub record NewEvent : Type 0 where
  pub id : ℕ
  pub chat_id : ℕ
  pub user_id : ℕ
  pub is_system : Bool
  pub scheme : Option ℕ
  pub reply_to_id : Option ℕ
  pub forwarded_from_user_id : ℕ
  pub edited_at : Option Str
  pub is_deleted : Bool
  pub created_at : Str
  pub attachments : Option (List Attachment)
  pub replayed : Bool

-- The message that the handler of 'new' builds; 0 is the wire's "not forwarded".
unfoldable pub message_of : NewEvent → Str → Message
message_of e text = record {
  id = e.id;
  chat_id = e.chat_id;
  user_id = e.user_id;
  text = text;
  is_system = e.is_system;
  scheme = e.scheme;
  reply_to_id = e.reply_to_id;
  forwarded_from_user_id =
      if e.forwarded_from_user_id == 0 then none else some e.forwarded_from_user_id;
  edited_at = e.edited_at;
  is_deleted = e.is_deleted;
  created_at = e.created_at;
  attachments = or_else e.attachments [];
}

unfoldable pub has_message : ℕ → List Message → Bool
has_message id = any_of (λ m. m.id == id)

-- The appending of the handler of 'new': a message that is there already is not added again.
unfoldable pub append_new : Message → List Message → List Message
unfolding has_message
append_new m prev = if has_message m.id prev then prev else prev ++ m ∷ []

abbrev update : ℕ → (Message → Message) → List Message → List Message
update id f = map (λ m. if m.id == id then f m else m)

unfoldable pub mark_deleted : ℕ → Bool → List Message → List Message
mark_deleted id is_deleted = update id (λ m. record m { is_deleted = is_deleted })

unfoldable pub apply_edit : ℕ → Str → Str → List Message → List Message
apply_edit id text edited_at = update id (λ m. record m { text = text; edited_at = some edited_at })

-- Each client lifts the envelope addressed to it to the top of the attachment.
unfoldable pub project_attachment : ℕ → Attachment → Attachment
project_attachment me a = elim (find_first (λ e. e.recipient_id == me) (or_else a.envelopes [])) [
  | none ↦ a
  | some e ↦ record a { encrypted_file_key = some e.encrypted_file_key; envelope_iv = some e.iv }
]

unfoldable pub set_attachments : ℕ → ℕ → List Attachment → List Message → List Message
unfolding project_attachment
set_attachments me id atts =
    update id (λ m. record m { attachments = map (project_attachment me) atts })

abbrev pub max_cached_messages_per_chat : ℕ
max_cached_messages_per_chat = 50

-- What `saveCachedMessages` keeps: `slice(-50)` of a longer list.
unfoldable pub cached_tail {ℓ} : {A : Type ℓ} → List A → List A
cached_tail ms =
    if ltb max_cached_messages_per_chat (length ms)
    then drop (length ms - max_cached_messages_per_chat) ms
    else ms
