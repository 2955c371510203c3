-- ===== src/Chats/History.antt =====
-- The messages of a chat as ChatsPage.tsx loads them from the server: that they are readable, what is
-- shown without a connection, and what an answer does that comes late.
use nothingapp.Common.{
  ℕ, ◌==◌, ◌≡◌, ◌≢◌, refl, Bool, true, false, not, Option, none, some, List, [], ◌∷◌, ◌++◌, map,
  Str, All, is_some, or_else, arith, Option-cases, inl, inr,
}
use nothingapp.Common.IdMap.{get, get-put}
use nothingapp.Crypto.Platform.{Bytes, CryptoKey, Platform, Lawful, IsPlainText, ok, err, Error}
use nothingapp.Crypto.E2e.{iv_bytes}
use nothingapp.Crypto.E2e.Base64.{b64encode_nonempty}
use nothingapp.Crypto.E2e.ChatKey.{
  public_of, chat_key_of, derive_chat_key_lem, secret_of, public_nonempty,
}
use nothingapp.Crypto.E2e.Message.{sealed_of, decrypt_message-sealed_of}
use nothingapp.Chats.Thread.{Message, ChatItem, NewEvent, message_of, has_message, append_new}
use nothingapp.Chats.Page.{update_chats, add_message, new_message, cached_thread, show_cached}
use nothingapp.Chats.Incoming.{is_scheme2, decrypt_incoming_text, get_chat_key_lem}
use nothingapp.Chats.Stale.{update_chats-messages}
use nothingapp.Chats.Loading.{
  RawMessage, Screen, Loaded, decrypt_raw, decrypt_all, decrypt_history, begin_load, finish_load,
}

-- A message before its encryption, with the draw of its IV; or one that is not encrypted.
pub data Entry : Type 0 where
  secret : Message → ℕ → Entry
  open_text : Message → Entry

-- The text is one that the encryption keeps; an unencrypted message is not of scheme 2.
unfoldable pub IsEntry : Entry → Type 0
IsEntry (secret m draw) = (IsPlainText m.text) × (is_scheme2 m.scheme ≡ true)
IsEntry (open_text m) = is_scheme2 m.scheme ≡ false

abbrev pub entry_message : Entry → Message
entry_message (secret m draw) = m
entry_message (open_text m) = m

module _ (p : Platform) (l : Lawful p) where
  -- What the server stores of it under this chat key.
  abbrev pub raw_of : CryptoKey → Entry → RawMessage
  raw_of k (secret m draw) = record {
    message = record m { text = (sealed_of p l m.text k draw).ciphertext };
    iv = some (sealed_of p l m.text k draw).iv;
  }
  raw_of k (open_text m) = record { message = m; iv = none }

  decrypt_raw_lem :
      (k : CryptoKey) (e : Entry) (w : ℕ)
      → k.can_decrypt ≡ true
      → IsEntry e
      → decrypt_raw p (some k) (raw_of k e) w ≡ (ok (entry_message e), w)
  unfolding decrypt_raw decrypt_incoming_text IsEntry
  decrypt_raw_lem k (secret m draw) w can (plain, two) = rw two (
      rw (b64encode_nonempty p l (p.random_values draw iv_bytes) 11 (l.random_length draw iv_bytes))
        (rw (decrypt_message-sealed_of p l m.text k draw w plain can) refl))
  decrypt_raw_lem k (open_text m) w can other = rw other refl

  decrypt_all_lem :
      (k : CryptoKey) (es : List Entry) (w : ℕ)
      → k.can_decrypt ≡ true
      → All IsEntry es
      → decrypt_all p (some k) (map (raw_of k) es) w ≡ (ok (map entry_message es), w)
  unfolding decrypt_all
  decrypt_all_lem k [] w can h = refl
  decrypt_all_lem k (e ∷ es) w can (h, hs) =
      rw (decrypt_raw_lem k e w can h) (rw (decrypt_all_lem k es w can hs) refl)

  -- The history of a chat of two is readable: whatever either user encrypted under the chat key
  -- that the two share, and whatever was not encrypted, comes out of the server's answer as it was
  -- written, in its order. (The chat is in the list, the peer's published key is known and its id is
  -- not 0, the account key is exportable, and the texts are well-formed without a byte order mark
  -- first.)
  pub decrypt_history_readable :
      (peer_key : ℕ → Option Str) (account peer_account : CryptoKey) (chat : ChatItem) (peer w : ℕ)
      (shared : Bytes) (es : List Entry)
      → chat.is_group ≡ false
      → chat.other_user_id ≡ some peer
      → (peer == 0) ≡ false
      → account.extractable ≡ true
      → peer_key peer ≡ some (public_of p peer_account)
      → secret_of p account peer_account ≡ ok shared
      → All IsEntry es
      → decrypt_history p peer_key
          (some account)
          (some chat)
          (map (raw_of (chat_key_of p shared)) es)
          w
        ≡ (ok (map entry_message es), w)
  unfolding decrypt_history
  decrypt_history_readable peer_key account peer_account chat peer w shared es two other real hx
        known agreed all =
      rw two (
        rw other (
          rw
            (get_chat_key_lem p peer_key account (chat_key_of p shared) peer w
              (public_of p peer_account) real known (public_nonempty p l peer_account)
              (derive_chat_key_lem p l account peer_account shared w hx agreed))
            (decrypt_all_lem (chat_key_of p shared) es w refl all)))

-- When the request for a chat's messages fails, the cached thread stays on the screen and no error
-- is shown, whether it came from the memory or from the storage; without one the thread is empty and
-- the error is shown. The spinner is gone in both cases.
pub finish_load_offline :
    (chat : ℕ) (e : Error) (s : Screen)
    → let cached = cached_thread chat s.page in
      let t = finish_load chat (is_some cached) (err e) (begin_load chat s) in
      (t.page.messages ≡ or_else cached [])
      × (t.failed ≡ not (is_some cached))
      × (t.loading ≡ false)
unfolding finish_load begin_load show_cached
finish_load_offline chat e s = elim (Option-cases (cached_thread chat s.page)) [
  | inl no_thread ↦ rw (no_thread, begin_load, show_cached) (refl, refl, refl)
  | inr (ms, found) ↦ rw (found, begin_load, show_cached) (refl, refl, refl)
]

module _ (trim : Str → Str) (at_least : Str → Str → Bool) where
  -- The answer for a chat that is no longer open replaces the thread on the screen all the same;
  -- and the next message of the open chat is then appended to the foreign thread, and both are
  -- cached as the thread of the open chat. (No message of its id is in the foreign thread.)
  pub finish_load_foreign :
      (chat other me : ℕ) (cached : Bool) (r : Loaded) (s : Screen) (e : NewEvent) (text : Str)
      → s.page.active ≡ some other
      → chat ≢ other
      → e.chat_id ≡ other
      → has_message e.id r.messages ≡ false
      → let t = finish_load chat cached (ok r) s in
        let u = new_message trim at_least (some other) me e text t.page in
        (t.page.active ≡ some other)
        × (t.page.messages ≡ r.messages)
        × (u.messages ≡ r.messages ++ message_of e text ∷ [])
        × (get other u.cache ≡ some (r.messages ++ message_of e text ∷ []))
  unfolding finish_load new_message add_message append_new message_of
  finish_load_foreign chat other me cached r s e text here differ same fresh =
      let t = finish_load chat cached (ok r) s in
      let (ms, act, kept) = update_chats-messages trim at_least (some other) me e text t.page in
      let u = update_chats trim at_least (some other) me e text t.page in
      (
        here,
        refl,
        ground (arith, ms, act, fresh, same),
        ground (
          arith,
          ms,
          act,
          fresh,
          same,
          get-put other other (r.messages ++ message_of e text ∷ []) u.cache,
        ),
      )
