-- ===== src/Composer/View.antt =====
-- frontend/src/features/chats/MessageItem.tsx: `AttachmentView`, which fetches an attachment and decrypts
-- it. `body` is the answer to its fetch, none when that fails.
use nothingapp.Common.{
  ℕ, Bool, false, not, ◌&&◌, ◌==◌, Option, none, some, [], Str, codes, is_empty, starts_with,
  if◌then◌else◌, or_else,
}
use nothingapp.Crypto.Platform.{
  Bytes, CryptoKey, Platform, Result, ok, err, no_chat_key, request_failed,
}
use nothingapp.Crypto.Async.{Async, pure, throw, ◌>>=◌}
use nothingapp.Crypto.E2e.{File, unwrap_file_key, decrypt_metadata, decrypt_file}
use nothingapp.Crypto.PeerKeys.{get_chat_key}
use nothingapp.Chats.Thread.{Attachment}

-- The fields of an attachment that the view reads.
pub record SealedAttachment : Type 0 where
  pub attachment : Attachment
  pub file_iv : Option Str
  pub encrypted_metadata : Option Str
  pub metadata_iv : Option Str
  pub has_url : Bool

pub data Bucket : Type 0 where
  image video document : Bucket

unfoldable pub bucket_from_mime : Str → Bucket
bucket_from_mime mime =
    if starts_with (codes "image/") mime
    then image
    else if starts_with (codes "video/") mime
    then video
    else document

abbrev is_there : Option Str → Bool
is_there v = not (is_empty (or_else v []))

unfoldable pub has_all_fields : SealedAttachment → Bool
has_all_fields a =
    is_there a.attachment.encrypted_file_key
    && is_there a.attachment.envelope_iv
    && is_there a.file_iv
    && is_there a.encrypted_metadata
    && is_there a.metadata_iv

-- What the view shows at the end: `decryptedMeta` and `decryptedBlob`.
pub record Shown : Type 0 where
  pub file_name : Str
  pub mime_type : Str
  pub blob : File

module _ (p : Platform) where
  unfoldable pub show_body : SealedAttachment → CryptoKey → Str → Str → Option Bytes → Async Shown
  show_body a file_key name mime none = throw request_failed
  show_body a file_key name mime (some ct) = do
    blob ← decrypt_file p ct (or_else a.file_iv []) file_key mime
    pure (record { file_name = name; mime_type = mime; blob = blob })

  unfoldable pub show_with : SealedAttachment → Option Bytes → Option CryptoKey → Async Shown
  unfolding show_body
  show_with a body none = throw no_chat_key
  show_with a body (some chat_key) = do
    file_key ←
        unwrap_file_key p (or_else a.attachment.encrypted_file_key [])
          (or_else a.attachment.envelope_iv []) chat_key false
    meta ← decrypt_metadata p (or_else a.encrypted_metadata []) (or_else a.metadata_iv []) file_key
    let mime = if is_empty meta.mime_type then codes "application/octet-stream" else meta.mime_type
    show_body a file_key meta.file_name mime body

  -- The effect's `run`.
  unfoldable pub decrypt_attachment :
      (ℕ → Option Str) → CryptoKey → Option ℕ → SealedAttachment → Option Bytes → Async Shown
  unfolding show_with
  decrypt_attachment peer_key account sender a body = do
    chat_key ← get_chat_key p peer_key (some account) sender
    show_with a body chat_key

-- What is rendered; `run` is the outcome of the effect, none while it runs.
pub data View : Type 0 where
  nothing broken waiting : View
  shown : Bucket → Str → Str → View

abbrev name_or_file : Str → Str
name_or_file name = if is_empty name then codes "Файл" else name

abbrev render_outcome : Option (Result Shown) → View
render_outcome none = waiting
render_outcome (some (err e)) = broken
render_outcome (some (ok s)) =
    let mime = if is_empty s.mime_type then codes "application/octet-stream" else s.mime_type in
    shown (bucket_from_mime mime) (name_or_file s.file_name) mime

unfoldable pub render : SealedAttachment → Option (Result Shown) → View
unfolding has_all_fields bucket_from_mime
render a run =
    if a.attachment.id == 0
    then nothing
    else if not a.has_url
    then nothing
    else if has_all_fields a
    then render_outcome run
    else broken
