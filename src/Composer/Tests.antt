-- ===== src/Composer/Tests.antt =====
-- The theorems on the composer at concrete windows.
mod Attached
use nothingapp.Common.{
  ℕ, ◌≡◌, refl, true, false, Bool, Option, none, some, List, [], ◌∷◌, Str, codes, trim, trim_start,
  trim_end, is_space, is_empty, keep, any_of, map, suc,
}
use nothingapp.Common.Storage.{Storage}
use nothingapp.Crypto.Platform.{CryptoKey, Result, ok, is_well_formed}
use nothingapp.Crypto.E2e.ChatKey.{public_of}
use nothingapp.Crypto.E2e.Vault.{account_key_of}
use nothingapp.Crypto.E2e.Group.{Member, recipients_of}
use nothingapp.Crypto.Attachments.{GroupKeyStatus, FileInput}
use nothingapp.Crypto.E2e.{GroupEnvelope}
use nothingapp.Crypto.Attachments.Recipients.{get_group_key_status-listed}
use nothingapp.Crypto.Toy.{toy, toy-Lawful, replicate}
use nothingapp.Chats.Thread.{Message, ChatItem, NewEvent, message_of}
use nothingapp.Chats.Incoming.{Encrypted, decrypt_event}
use nothingapp.Composer.{Window, loading, ready}
use nothingapp.Composer.Drafts.{ChatProps, save_draft, restored_draft, switch_chat}
use nothingapp.Composer.Drafts.Kept.{Op, opened, typed, closed, run_fits}
use nothingapp.Composer.Status.{refresh_status}
use nothingapp.Composer.Submit.{
  or_space, submit, check_submit, started, finish_submit, Job, pair, encrypt_body,
}
use nothingapp.Composer.Delivery.{CanSend}
use nothingapp.Composer.Delivered.{Sent, submit-decrypt_event, submit-decrypt_event_group}
use nothingapp.Composer.Stale.{finish_submit_foreign, refresh_status_recipients}

abbrev pub alice : CryptoKey
alice = account_key_of (replicate 32 7)

abbrev pub bob : CryptoKey
bob = account_key_of (replicate 32 9)

abbrev empty : Storage
empty = record { items = []; available = true; quota = 5000 }

abbrev greeting : Str
greeting = codes " hi "

abbrev pub window : Window
window = record {
  chat = some 4;
  is_group = false;
  other_user = some 2;
  me = some 1;
  account = some alice;
  connected = true;
  messages = [];
  text = greeting;
  reply_to = none;
  editing = none;
  files = [];
  sending = false;
  uploading = false;
  status = ready none;
  pending_upload = none;
  confirm = none;
  forwarding_message = none;
  forwarding = false;
  storage = empty;
  sent = [];
  notices = [];
}

greeting_can : CanSend window 4 alice none
unfolding trim trim_start trim_end is_space or_space is_well_formed
greeting_can = record {
  open_chat = refl;
  real_chat = refl;
  has_content = refl;
  has_connection = refl;
  has_account = refl;
  is_ready = refl;
  no_edit = refl;
  exportable = refl;
  well_formed = refl;
}

submit-decrypt_event_example :
    (body : Encrypted) × Sent window 4 body
      (submit toy (λ u. some (public_of toy bob)) 5 true window)
    × (decrypt_event toy (λ u. some (public_of toy alice)) (some bob) (some 2) (some 1) body 8
        ≡ (ok (record { text = or_space (trim greeting); scheme = some 2; iv = some [] }), 8))
submit-decrypt_event_example =
    submit-decrypt_event toy toy-Lawful window 4 2 1 5 8 alice bob none
      (λ u. some (public_of toy bob)) (λ u. some (public_of toy alice)) greeting_can refl refl refl
      refl refl refl refl

abbrev props : ChatProps
props = record { chat = some 4; is_group = false; other_user = some 2; messages = [] }

abbrev ops : List Op
ops = typed (codes "a") ∷ closed ∷ opened props ∷ []

abbrev job : Job
job = record {
  chat = 4;
  text = codes "hi";
  account = alice;
  audience = pair (some 2);
  editing = none;
  reply_to = none;
}

abbrev other_props : ChatProps
other_props = record props { chat = some 6 }

abbrev body : Encrypted
body = record { text = codes "x"; scheme = some 2; iv = some (codes "y"); envelopes = none }

finish_submit_foreign_example :
    let shown = switch_chat other_props window in
    let v = finish_submit job (ok body) true shown in
    (shown.text ≡ restored_draft 6 shown.storage)
    × (v.chat ≡ some 6)
    × (v.text ≡ [])
    × (restored_draft 6 (save_draft v).storage ≡ [])
finish_submit_foreign_example =
    finish_submit_foreign job body other_props window 6 refl refl refl refl refl

abbrev both : List Member
both = record { id = 2; key = bob } ∷ []

abbrev self : Member
self = record { id = 1; key = alice }

abbrev keys : GroupKeyStatus
keys = record { recipients = recipients_of toy (self ∷ both); missing_user_ids = [] }

abbrev group_window : Window
group_window = record window { is_group = true; other_user = none; status = ready (some keys) }

group_can : CanSend group_window 4 alice (some keys)
unfolding trim trim_start trim_end is_space or_space is_well_formed
group_can = record {
  open_chat = refl;
  real_chat = refl;
  has_content = refl;
  has_connection = refl;
  has_account = refl;
  is_ready = refl;
  no_edit = refl;
  exportable = refl;
  well_formed = refl;
}

submit-decrypt_event_group_example :
    (body : Encrypted) × Sent group_window 4 body (submit toy (λ u. none) 5 true group_window)
    × (decrypt_event toy (λ u. some (public_of toy alice)) (some bob) (some 2) (some 1) body 8
        ≡ (ok (record { text = or_space (trim greeting); scheme = some 2; iv = some [] }), 8))
submit-decrypt_event_group_example =
    submit-decrypt_event_group toy toy-Lawful group_window 4 1 5 8 alice self both keys
      (record { id = 2; key = bob }) (λ u. none) (λ u. some (public_of toy alice)) group_can refl
      refl refl (get_group_key_status-listed toy toy-Lawful self both) refl (refl, (refl, tt)) refl
      refl refl

abbrev grown : GroupKeyStatus
grown = record {
  recipients = recipients_of toy (self ∷ record { id = 3; key = bob } ∷ both);
  missing_user_ids = [];
}

refresh_status_recipients_example :
    (job : Job) × (es : List GroupEnvelope) × (check_submit
        (refresh_status [] none (some grown) none group_window)
      ≡ started job)
    × ((encrypt_body toy (λ u. none) job 5).0
        ≡ ok (record { text = []; scheme = some 2; iv = none; envelopes = some es }))
    × (map (λ e. e.recipient_id) es ≡ map (λ m. m.id) (self ∷ both))
refresh_status_recipients_example =
    refresh_status_recipients toy toy-Lawful group_window 4 1 5 alice self both grown [] none none
      (λ u. none) group_can refl refl refl refl (refl, (refl, tt)) refl
