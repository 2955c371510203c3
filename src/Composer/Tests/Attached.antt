-- ===== src/Composer/Tests/Attached.antt =====
-- The theorems on forwarding and uploading at concrete windows.
use nothingapp.Common.{
  ℕ, ◌≡◌, refl, true, false, none, some, List, [], ◌∷◌, codes, trim, trim_start, trim_end, is_space,
  is_empty, length, ltb,
}
use nothingapp.Crypto.Platform.{ok, is_well_formed}
use nothingapp.Crypto.E2e.ChatKey.{public_of}
use nothingapp.Crypto.Toy.{toy, toy-Lawful}
use nothingapp.Crypto.Attachments.{FileInput, PreparedAttachment, prepare_attachment_for_upload}
use nothingapp.Crypto.E2e.Files.{mime_or_default}
use nothingapp.Crypto.E2e.Group.{Member, recipients_of}
use nothingapp.Composer.View.{decrypt_attachment}
use nothingapp.Composer.Received.{received_by, decrypt_attachment-prepare}
use nothingapp.Chats.Thread.{Message, ChatItem, NewEvent, message_of}
use nothingapp.Chats.Incoming.{decrypt_event}
use nothingapp.Composer.{Window}
use nothingapp.Composer.Tests.{alice, bob, window}
use nothingapp.Composer.Forward.{
  ForwardJob, ForwardPayload, payload, original_author, begin_forward, encrypt_forward,
}
use nothingapp.Composer.Forwarded.{forward-decrypt_event}
use nothingapp.Composer.Upload.{UploadJob, last_of, is_mine, new_own, files_for, on_messages}
use nothingapp.Composer.Uploaded.{on_messages_once}

abbrev source : Message
source = record {
  id = 30;
  chat_id = 4;
  user_id = 1;
  text = codes "news";
  is_system = false;
  scheme = some 2;
  reply_to_id = none;
  forwarded_from_user_id = some 9;
  edited_at = none;
  is_deleted = false;
  created_at = [];
  attachments = [];
}

abbrev dest : ChatItem
dest = record {
  id = 5;
  is_group = false;
  other_user_id = some 2;
  last_message = [];
  unread_count = 0;
  updated_at = [];
}

abbrev event : NewEvent
event = record {
  id = 31;
  chat_id = 5;
  user_id = 1;
  is_system = false;
  scheme = some 2;
  reply_to_id = none;
  forwarded_from_user_id = 0;
  edited_at = none;
  is_deleted = false;
  created_at = [];
  attachments = none;
  replayed = false;
}

abbrev forwarder : Window
forwarder = record window { forwarding_message = some source }

forward-decrypt_event_example :
    (job : ForwardJob) × (f : ForwardPayload) × ((begin_forward forwarder).1 ≡ some job)
    × ((encrypt_forward toy (λ u. some (public_of toy bob)) none dest job 5).0 ≡ ok (payload f))
    × (decrypt_event toy (λ u. some (public_of toy alice)) (some bob) (some 2) (some 1) f.body 8
        ≡ (ok (record { text = trim (codes "news"); scheme = some 2; iv = some [] }), 8))
    × (f.forwarded_from ≡ original_author source)
    × (original_author
          (message_of (record event { forwarded_from_user_id = f.forwarded_from }) (codes "news"))
        ≡ original_author source)
forward-decrypt_event_example =
    forward-decrypt_event toy toy-Lawful forwarder source dest event (codes "news") alice bob 1 2 5
      8 none (λ u. some (public_of toy bob)) (λ u. some (public_of toy alice)) refl refl refl refl
      (unfold original_author in refl) refl (unfold trim trim_start trim_end is_space in refl)
      (unfold trim trim_start trim_end is_space is_well_formed in refl) refl refl refl refl refl
      refl refl

abbrev photo : FileInput
photo = record { content = 1 ∷ []; name = codes "a.png"; mime = codes "image/png" }

abbrev uploader : Window
uploader = record window { messages = source ∷ []; pending_upload = some (4, photo ∷ []) }

abbrev upload : UploadJob
upload = record { chat = 4; message = 30; files = photo ∷ [] }

on_messages_once_example :
    (m : Message) × (ltb 0 (length uploader.messages) ≡ true)
    × (last_of uploader.messages ≡ some m)
    × (is_mine uploader.me m ≡ true)
    × (upload.message ≡ m.id)
    × (uploader.pending_upload ≡ some (m.chat_id, upload.files))
    × (is_empty upload.files ≡ false)
    × ((k : ℕ) (ms : List Message)
        → (on_messages k (record (on_messages 0 uploader).0 { messages = ms })).1 ≡ none)
on_messages_once_example =
    on_messages_once 0 uploader upload (unfold on_messages new_own files_for in refl)

abbrev reader : Member
reader = record { id = 2; key = bob }

decrypt_attachment-prepare_example :
    let mime = mime_or_default photo.mime in
    (a : PreparedAttachment) × ((prepare_attachment_for_upload toy photo
        (recipients_of toy (record { id = 1; key = alice } ∷ reader ∷ []))
        alice
        3).0
      ≡ ok a)
    × (decrypt_attachment toy
          (λ u. some (public_of toy alice))
          bob
          (some 1)
          (received_by 40 2 a)
          (some a.ciphertext)
          8
        ≡ (
          ok (record {
            file_name = photo.name;
            mime_type = mime;
            blob = record { content = photo.content; mime = mime };
          }),
          8,
        ))
decrypt_attachment-prepare_example =
    decrypt_attachment-prepare toy toy-Lawful photo alice 1 (record { id = 1; key = alice })
      (reader ∷ []) reader 40 3 8 (λ u. some (public_of toy alice)) refl (refl, (refl, tt)) refl
      refl refl
