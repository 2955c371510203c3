-- ===== src/Chats/Loading.antt =====
-- frontend/src/pages/ChatsPage.tsx: `loadMessages` and `loadChats`, before and after their requests,
-- with the decryption of what the server answers.
use nothingapp.Common.{
  ℕ, ◌==◌, Bool, true, false, ◌&&◌, not, Option, none, some, List, [], ◌∷◌, max, ltb, Str, trim,
  is_empty, is_some, keep, if◌then◌else◌, or_else,
}
use nothingapp.Common.IdMap.{IdMap, get}
use nothingapp.Crypto.Platform.{CryptoKey, Platform, Result, ok, err}
use nothingapp.Crypto.Async.{Async, pure, ◌>>=◌}
use nothingapp.Crypto.PeerKeys.{get_chat_key}
use nothingapp.Chats.Thread.{Message, ChatItem}
use nothingapp.Chats.ChatOrder.{sort_chats}
use nothingapp.Chats.Page.{Page, set_thread, cached_thread, show_cached}
use nothingapp.Chats.Incoming.{is_scheme2, decrypt_incoming_text}
use nothingapp.Chats.Receipts.{Receipt, seed_receipt}

-- A message as the server sends it, with the IV of its ciphertext.
pub record RawMessage : Type 0 where
  pub message : Message
  pub iv : Option Str

-- The ids of the senders of encrypted messages, each once.
unfoldable pub unique_senders : List RawMessage → List ℕ
unique_senders [] = []
unique_senders (r ∷ rs) =
    let rest = unique_senders rs in
    if is_scheme2 r.message.scheme
    then r.message.user_id ∷ keep (λ u. not (u == r.message.user_id)) rest
    else rest

module _ (p : Platform) where
  unfoldable pub decrypt_raw : Option CryptoKey → RawMessage → Async Message
  decrypt_raw key r = do
    t ←
        decrypt_incoming_text p
          (record { text = r.message.text; scheme = r.message.scheme; iv = r.iv }) key
    pure (record r.message { text = t.text })

  unfoldable pub decrypt_all : Option CryptoKey → List RawMessage → Async (List Message)
  unfolding decrypt_raw
  decrypt_all key [] = pure []
  decrypt_all key (r ∷ rs) = do m ← decrypt_raw key r; ms ← decrypt_all key rs; pure (m ∷ ms)

  -- The map `senderKeys`.
  unfoldable pub sender_keys :
      (ℕ → Option Str) → Option CryptoKey → List ℕ → Async (IdMap (Option CryptoKey))
  sender_keys peer_key account [] = pure []
  sender_keys peer_key account (u ∷ us) = do
    key ← get_chat_key p peer_key account (some u)
    rest ← sender_keys peer_key account us
    pure ((u, key) ∷ rest)

  unfoldable pub decrypt_group : IdMap (Option CryptoKey) → List RawMessage → Async (List Message)
  unfolding decrypt_raw
  decrypt_group keys [] = pure []
  decrypt_group keys (r ∷ rs) = do
    m ←
        decrypt_raw
          (if is_scheme2 r.message.scheme then or_else (get r.message.user_id keys) none else none)
          r
    ms ← decrypt_group keys rs
    pure (m ∷ ms)

  -- The decryption of an answer: `chat` is the entry of the chat list, if it is there.
  unfoldable pub decrypt_history :
      (ℕ → Option Str) → Option CryptoKey → Option ChatItem → List RawMessage → Async (List Message)
  unfolding decrypt_all decrypt_group sender_keys unique_senders
  decrypt_history peer_key account none raw = do
    key ← get_chat_key p peer_key account none
    decrypt_all key raw
  decrypt_history peer_key account (some chat) raw =
      if chat.is_group
      then (sender_keys peer_key account (unique_senders raw) >>= λ keys. decrypt_group keys raw)
      else (get_chat_key p peer_key account chat.other_user_id >>= λ key. decrypt_all key raw)

-- The page with the flags of its loading, the read receipts and the `mark_read`s it sent.
pub record Screen : Type 0 where
  pub page : Page
  pub receipts : IdMap Receipt
  pub loading : Bool
  pub failed : Bool
  pub read_marks : List (ℕ × ℕ)

-- `loadMessages` up to its request.
unfoldable pub begin_load : ℕ → Screen → Screen
unfolding show_cached cached_thread
begin_load chat s = record s {
  page = show_cached chat s.page;
  loading = not (is_some (cached_thread chat s.page));
  failed = false;
}

abbrev pub newest_id : List Message → ℕ
newest_id [] = 0
newest_id (m ∷ ms) = max m.id (newest_id ms)

-- What the server answers, decrypted.
pub record Loaded : Type 0 where
  pub messages : List Message
  pub last_delivered : ℕ
  pub last_read : ℕ

-- The rest of `loadMessages`; `was_cached` is whether a thread was shown at the start.
unfoldable pub finish_load : ℕ → Bool → Result Loaded → Screen → Screen
finish_load chat was_cached (err e) s =
    if was_cached
    then record s { loading = false }
    else record s { page = record s.page { messages = [] }; failed = true; loading = false }
finish_load chat was_cached (ok r) s =
    let newest = newest_id r.messages in
    record s {
      page = set_thread chat r.messages s.page;
      receipts = seed_receipt chat r.last_delivered r.last_read s.receipts;
      read_marks = if ltb 0 newest then (chat, newest) ∷ s.read_marks else s.read_marks;
      loading = false;
    }

-- An entry of the chat list as the server sends it.
pub record ChatRow : Type 0 where
  pub item : ChatItem
  pub scheme : Option ℕ
  pub ciphertext : Str
  pub iv : Str
  pub sender : Option ℕ

module _ (p : Platform) where
  unfoldable pub decrypt_preview : (ℕ → Option Str) → Option CryptoKey → ChatRow → Async ChatItem
  decrypt_preview peer_key account row = elim row.sender [
    | none ↦ pure row.item
    | some sender ↦
        if is_scheme2 row.scheme && not (is_empty row.ciphertext) && not (is_empty row.iv)
        then (get_chat_key p peer_key account
              (if row.item.is_group then some sender else row.item.other_user_id)
            >>= λ key.
                decrypt_incoming_text p
                  (record { text = row.ciphertext; scheme = some 2; iv = some row.iv }) key
                >>= λ t. pure (record row.item {
                  last_message =
                      if is_empty (trim t.text) then row.item.last_message else trim t.text;
                }))
        else pure row.item
  ]

  unfoldable pub decrypt_previews :
      (ℕ → Option Str) → Option CryptoKey → List ChatRow → Async (List ChatItem)
  unfolding decrypt_preview
  decrypt_previews peer_key account [] = pure []
  decrypt_previews peer_key account (r ∷ rs) = do
    c ← decrypt_preview peer_key account r
    cs ← decrypt_previews peer_key account rs
    pure (c ∷ cs)

-- The chat list with its flags; `saved` is what `writeCachedChats` keeps for the next start.
pub record ChatList : Type 0 where
  pub chats : List ChatItem
  pub loading : Bool
  pub failed : Bool
  pub saved : List ChatItem

unfoldable pub begin_load_chats : ChatList → ChatList
begin_load_chats s = record s {
  failed = false;
  loading = if is_empty s.chats then true else s.loading;
}

-- `have_data` is whether there was a list at the start; `writable` whether the storage took it.
unfoldable pub finish_load_chats :
    (Str → Str → Bool) → Bool → Bool → Result (List ChatItem) → ChatList → ChatList
finish_load_chats at_least have_data writable (err e) s = record s {
  failed = if have_data then s.failed else true;
  loading = false;
}
finish_load_chats at_least have_data writable (ok rows) s =
    let sorted = sort_chats at_least rows in
    record s { chats = sorted; saved = if writable then sorted else s.saved; loading = false }
