-- ===== src/Chats/Tests/Opened.antt =====
-- The theorems on loading and opening chats at concrete pages.
use nothingapp.Common.{
  ℕ, ◌≡◌, refl, true, false, not, some, List, [], ◌∷◌, ◌++◌, map, codes, is_some, or_else, arith,
}
use nothingapp.Common.IdMap.{get}
use nothingapp.Common.Storage.{Storage}
use nothingapp.Crypto.Platform.{CryptoKey, IsPlainText, is_well_formed, ok, err, operation_error}
use nothingapp.Crypto.E2e.ChatKey.{public_of, chat_key_of, secret_defined}
use nothingapp.Crypto.E2e.Vault.{account_key_of}
use nothingapp.Crypto.Toy.{toy, toy-Lawful, replicate}
use nothingapp.Chats.Thread.{Message, ChatItem, message_of, has_message}
use nothingapp.Chats.Page.{new_message, cached_thread, load_chats, load_messages, load_pinned}
use nothingapp.Chats.Loading.{Screen, Loaded, decrypt_history, begin_load, finish_load}
use nothingapp.Chats.History.{
  Entry, secret, IsEntry, raw_of, entry_message, decrypt_history_readable, finish_load_offline,
  finish_load_foreign,
}
use nothingapp.Chats.Navigation.{Shell, set_active}
use nothingapp.Chats.Opening.{set_active_refetches}
use nothingapp.Chats.Tests.{trim, at_least, chat_item, page, hello, text, alice}

abbrev bob : CryptoKey
bob = account_key_of (replicate 32 9)

abbrev note : Message
note = message_of hello text

abbrev history : List Entry
history = secret note 6 ∷ []

abbrev shared : List ℕ
shared = (secret_defined toy toy-Lawful alice bob).0

abbrev with_bob : ChatItem
with_bob = chat_item 7

note-IsEntry : IsEntry (secret note 6)
unfolding IsEntry IsPlainText is_well_formed message_of
note-IsEntry = ((refl, refl), refl)

decrypt_history_readable_example :
    decrypt_history toy
      (λ u. some (public_of toy bob))
      (some alice)
      (some with_bob)
      (map (raw_of toy toy-Lawful (chat_key_of toy shared)) history)
      3
    ≡ (ok (map entry_message history), 3)
decrypt_history_readable_example =
    decrypt_history_readable toy toy-Lawful (λ u. some (public_of toy bob)) alice bob with_bob 2 3
      shared history refl refl refl refl refl (secret_defined toy toy-Lawful alice bob).1
      (note-IsEntry, tt)

abbrev screen : Screen
screen = record {
  page = record page { active = some 7; stored = (8, note ∷ []) ∷ [] };
  receipts = [];
  loading = false;
  failed = false;
  read_marks = [];
}

finish_load_offline_example :
    let cached = cached_thread 8 screen.page in
    let t = finish_load 8 (is_some cached) (err operation_error) (begin_load 8 screen) in
    (t.page.messages ≡ or_else cached []) × (t.failed ≡ not (is_some cached)) × (t.loading ≡ false)
finish_load_offline_example = finish_load_offline 8 operation_error screen

abbrev answer : Loaded
answer = record { messages = []; last_delivered = 0; last_read = 0 }

finish_load_foreign_example :
    let t = finish_load 8 false (ok answer) screen in
    let u = new_message trim at_least (some 7) 1 hello text t.page in
    (t.page.active ≡ some 7)
    × (t.page.messages ≡ answer.messages)
    × (u.messages ≡ answer.messages ++ message_of hello text ∷ [])
    × (get 7 u.cache ≡ some (answer.messages ++ message_of hello text ∷ []))
finish_load_foreign_example =
    finish_load_foreign trim at_least 8 7 1 false answer screen hello text refl (omega arith) refl
      (unfold has_message in refl)

abbrev local : Storage
local = record { items = []; available = true; quota = 100 }

abbrev shell : Shell
shell = record {
  page = record page { stored = (7, note ∷ []) ∷ [] };
  group_shown = false;
  share_text = some (codes "link");
  reload_key = 0;
  connected = true;
  connected_before = true;
  local = local;
}

set_active_refetches_example :
    let t = set_active (some 7) shell in
    (get 7 t.page.cache ≡ some (note ∷ []))
    × (t.page.messages ≡ note ∷ [])
    × (t.page.requests
        ≡ load_pinned 7 ∷ load_messages 7 ∷ load_messages 7 ∷ load_chats ∷ shell.page.requests)
unfolding get
set_active_refetches_example = set_active_refetches 7 shell refl refl refl refl refl
