-- ===== src/Chats/Tests.antt =====
-- The theorems on frontend/src/pages/ChatsPage.tsx at concrete pages. Timestamps are compared by
-- their first unit.
mod Opened
use nothingapp.Common.{
  ℕ, ◌+◌, ◌==◌, ◌≡◌, ◌⊎◌, refl, Bool, true, false, not, ◌&&◌, Option, none, some, List, [], ◌∷◌,
  ◌++◌, Str, codes, leb, if◌then◌else◌, arith, or_else,
}
use nothingapp.Common.IdMap.{IdMap, get}
use nothingapp.Crypto.Platform.{CryptoKey, ok}
use nothingapp.Crypto.E2e.{GroupEnvelope, decrypt_message}
use nothingapp.Crypto.E2e.ChatKey.{public_of}
use nothingapp.Crypto.E2e.Vault.{account_key_of}
use nothingapp.Crypto.E2e.Group.{Member, encrypt_for_group-Readable}
use nothingapp.Crypto.Platform.{is_well_formed, IsPlainText}
use nothingapp.Crypto.Toy.{toy, toy-Lawful, replicate}
use nothingapp.Chats.Receipts.{Receipt, Acks, schedule_all, flush_ack}
use nothingapp.Chats.ReceiptLaws.{flush_ack-schedule_all}
use nothingapp.Chats.Thread.{ChatItem, NewEvent, message_of, has_message}
use nothingapp.Chats.ChatOrder.{chat_with, IsOrder}
use nothingapp.Chats.Page.{Page, is_open, add_message, preview, update_chats, new_message}
use nothingapp.Chats.Unread.{update_chats_lem}
use nothingapp.Chats.Threads.{IsThread, IsValid}
use nothingapp.Chats.Navigation.{enter_chat}
use nothingapp.Chats.Machine.{
  Event, new, deleted_chat, activated, entered, loaded, edit, run, step, shown_in,
}
use nothingapp.Chats.Consistent.{run-IsValid_timely}
use nothingapp.Chats.Stale.{new_message_misfiled}
use nothingapp.Chats.Incoming.{
  TextHolder, is_scheme2, encrypted_placeholder, decrypt_incoming_text, decrypt_event,
  decrypt_incoming_text_total, decrypt_event-Readable,
}

abbrev pub trim : Str → Str
trim s = s

-- Of two texts, whether the first unit of the first is at least that of the second; 0 if there is
-- none.
abbrev pub first : Str → ℕ
first [] = 0
first (c ∷ s) = c

abbrev pub at_least : Str → Str → Bool
at_least s t = leb (first t) (first s)

at_least-IsOrder : IsOrder at_least
at_least-IsOrder = record { total = λ s t h. ground arith; trans = λ s t u h k. ground arith }

abbrev receipts : IdMap Receipt
receipts = (7, record { delivered = 5; read = 3 }) ∷ []

abbrev quiet : Acks
quiet = record { pending = []; timers = []; acked = [] }

abbrev pub chat_item : ℕ → ChatItem
chat_item id = record {
  id = id;
  is_group = false;
  other_user_id = some 2;
  last_message = [];
  unread_count = 0;
  updated_at = 50 ∷ [];
}

abbrev pub page : Page
page = record {
  chats = chat_item 7 ∷ chat_item 8 ∷ [];
  messages = [];
  active = some 8;
  cache = [];
  stored = [];
  online = [];
  last_seen = [];
  pinned = [];
  requests = [];
}

abbrev pub hello : NewEvent
hello = record {
  id = 100;
  chat_id = 7;
  user_id = 2;
  is_system = false;
  scheme = some 2;
  reply_to_id = none;
  forwarded_from_user_id = 0;
  edited_at = none;
  is_deleted = false;
  created_at = 60 ∷ [];
  attachments = none;
  replayed = false;
}

abbrev pub text : Str
text = codes "Hi"

update_chats_lem_example :
    chat_with 7 (update_chats trim at_least (some 8) 1 hello text page).chats ≡ (
      if 7 == hello.chat_id
      then some (record (chat_item 7) {
        last_message = preview trim text;
        updated_at = hello.created_at;
        unread_count =
            if not (is_open (some 8) hello.chat_id)
              && not (hello.user_id == 1)
              && not hello.is_system
              && not hello.replayed
            then (chat_item 7).unread_count + 1
            else (chat_item 7).unread_count;
      })
      else chat_with 7 page.chats)
update_chats_lem_example =
    update_chats_lem trim at_least (some 8) 1 hello text page (chat_item 7) 7 (refl, (refl, tt))
      refl

page-IsValid : IsValid page none
unfolding get
page-IsValid = record { thread = λ chat e. cc; cached = λ chat ms e. cc; stored = λ chat ms e. cc }

-- The chat 7 is opened and loaded, gets a message, which is edited, and is deleted; at last the answer
-- to a load of it comes.
abbrev events : List Event
events =
    activated (some 7)
    ∷ entered false
    ∷ loaded 7 []
    ∷ new (some 7) 1 hello text
    ∷ edit (some 7) 7 100 text text
    ∷ deleted_chat 7
    ∷ loaded 7 []
    ∷ []

run-IsValid_timely_example :
    IsValid (run trim at_least events page) (shown_in trim at_least events page none)
unfolding step enter_chat new_message update_chats add_message has_message
run-IsValid_timely_example =
    let empty : IsThread 7 [] = record { own = tt; unique = tt } in
    run-IsValid_timely trim at_least events page none
      (tt, (tt, (empty, ((λ e. refl), ((λ e. refl), (tt, (empty, tt))))))) page-IsValid

new_message_misfiled_example :
    let t = new_message trim at_least (some hello.chat_id) 1 hello text page in
    (t.active ≡ some 8)
    × (t.messages ≡ page.messages ++ message_of hello text ∷ [])
    × (get hello.chat_id t.cache ≡ some (page.messages ++ message_of hello text ∷ []))
unfolding has_message
new_message_misfiled_example =
    new_message_misfiled trim at_least 1 8 hello text page refl (omega arith) refl

abbrev pub alice : CryptoKey
alice = account_key_of (replicate 32 7)

abbrev group : List Member
group =
    record { id = 1; key = alice } ∷ record { id = 2; key = account_key_of (replicate 32 9) } ∷ []

abbrev bob_member : Member
bob_member = record { id = 2; key = account_key_of (replicate 32 9) }

text_plain : IsPlainText text
unfolding IsPlainText is_well_formed
text_plain = (refl, refl)

abbrev sent : List GroupEnvelope
sent =
    (encrypt_for_group-Readable toy toy-Lawful text alice (record { id = 1; key = alice })
      (bob_member ∷ []) 0 50 text_plain refl (refl, (refl, tt))).0

decrypt_event-Readable_example :
    decrypt_event toy
      (λ u. some (public_of toy alice))
      (some bob_member.key)
      (some 2)
      (some 1)
      (record { text = []; scheme = some 2; iv = none; envelopes = some sent })
      50
    ≡ (ok (record { text = text; scheme = some 2; iv = some [] }), 50)
decrypt_event-Readable_example =
    decrypt_event-Readable toy text [] alice 1 50 group sent bob_member
      (λ u. some (public_of toy alice)) none toy-Lawful
      (encrypt_for_group-Readable toy toy-Lawful text alice (record { id = 1; key = alice })
        (bob_member ∷ []) 0 50 text_plain refl (refl, (refl, tt))).2
      refl refl refl refl

abbrev plain : TextHolder
plain = record { text = text; scheme = none; iv = none }
