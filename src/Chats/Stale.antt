-- ===== src/Chats/Stale.antt =====
-- A message whose text is still being decrypted when the user opens another chat.
use nothingapp.Common.{
  ℕ, ◌≡◌, ◌≢◌, refl, Bool, false, Option, some, [], ◌∷◌, ◌++◌, Str, arith, Option-cases, inl, inr,
}
use nothingapp.Common.IdMap.{get, get-put}
use nothingapp.Chats.Thread.{NewEvent, message_of, has_message, append_new}
use nothingapp.Chats.ChatOrder.{chat_with}
use nothingapp.Chats.Page.{Page, update_chats, add_message, new_message}

module _ (trim : Str → Str) (at_least : Str → Str → Bool) where
  pub update_chats-messages :
      (viewing : Option ℕ) (me : ℕ) (e : NewEvent) (text : Str) (s : Page)
      → ((update_chats trim at_least viewing me e text s).messages ≡ s.messages)
        × ((update_chats trim at_least viewing me e text s).active ≡ s.active)
        × ((update_chats trim at_least viewing me e text s).cache ≡ s.cache)
  unfolding update_chats
  update_chats-messages viewing me e text s = elim (Option-cases (chat_with e.chat_id s.chats)) [
    | inl unknown ↦ rw (unknown, update_chats) (refl, refl, refl)
    | inr (c, found) ↦ rw (found, update_chats) (refl, refl, refl)
  ]

  -- When a message of a chat came while the chat was open, and another chat is open by the time its
  -- text is decrypted, the message is appended to the thread of the other chat, which stays open,
  -- and that whole thread is cached as the thread of the message's chat. (No message of its id is in
  -- the open thread.)
  pub new_message_misfiled :
      (me other : ℕ) (e : NewEvent) (text : Str) (s : Page)
      → s.active ≡ some other
      → other ≢ e.chat_id
      → has_message e.id s.messages ≡ false
      → let t = new_message trim at_least (some e.chat_id) me e text s in
        (t.active ≡ some other)
        × (t.messages ≡ s.messages ++ message_of e text ∷ [])
        × (get e.chat_id t.cache ≡ some (s.messages ++ message_of e text ∷ []))
  unfolding new_message add_message append_new message_of
  new_message_misfiled me other e text s here differ fresh =
      let (ms, act, cached) = update_chats-messages (some e.chat_id) me e text s in
      let u = update_chats trim at_least (some e.chat_id) me e text s in
      ground (
        arith,
        ms,
        act,
        fresh,
        get-put e.chat_id e.chat_id (s.messages ++ message_of e text ∷ []) u.cache,
      )
