-- ===== src/Chats/Page.antt =====
-- frontend/src/pages/ChatsPage.tsx: the page's state and `handleWebSocketMessage`, one function for
-- each event. What the handlers ask the server for is logged in `requests`. An event whose text is
-- decrypted first is handled in two parts, and the second gets `viewing`, the chat that was open
-- when the event came: the handler's closure keeps it. `stored` is messageCache.ts by chat.
use nothingapp.Common.{
  ℕ, ◌+◌, ◌==◌, Bool, false, not, ◌&&◌, Option, none, some, List, [], ◌∷◌, map, Str, codes, keep,
  if◌then◌else◌, is_empty, or_else,
}
use nothingapp.Common.IdMap.{IdMap, get, put, delete}
use nothingapp.Chats.Thread.{
  Attachment, Message, ChatItem, NewEvent, message_of, has_message, append_new, mark_deleted,
  apply_edit, set_attachments, cached_tail,
}
use nothingapp.Chats.ChatOrder.{chat_with, sort_chats}

pub data Request : Type 0 where
  load_chats : Request
  load_messages load_pinned load_group : ℕ → Request

pub record Page : Type 0 where
  pub chats : List ChatItem
  pub messages : List Message
  pub active : Option ℕ
  pub cache : IdMap (List Message)
  pub stored : IdMap (List Message)
  pub online : List ℕ
  pub last_seen : IdMap Str
  pub pinned : List Message
  pub requests : List Request

abbrev pub is_open : Option ℕ → ℕ → Bool
is_open none chat = false
is_open (some a) chat = a == chat

-- `setMessages` with the two caches of a chat.
abbrev pub set_thread : ℕ → List Message → Page → Page
set_thread chat ms s = record s {
  messages = ms;
  cache = put chat ms s.cache;
  stored = put chat (cached_tail ms) s.stored;
}

abbrev pub ask : Request → Page → Page
ask r s = record s { requests = r ∷ s.requests }

-- The thread that can be shown at once: from the memory, or a stored one that is not empty.
abbrev pub first_thread : Option (List Message) → Option (List Message) → Option (List Message)
first_thread (some ms) stored = some ms
first_thread none none = none
first_thread none (some []) = none
first_thread none (some (m ∷ ms)) = some (m ∷ ms)

unfoldable pub cached_thread : ℕ → Page → Option (List Message)
cached_thread chat s = first_thread (get chat s.cache) (get chat s.stored)

abbrev pub put_found : ℕ → Option (List Message) → IdMap (List Message) → IdMap (List Message)
put_found chat none m = m
put_found chat (some ms) m = put chat ms m

-- `loadMessages` up to its request, as far as the thread and its caches go.
unfoldable pub show_cached : ℕ → Page → Page
unfolding cached_thread
show_cached chat s = record s {
  messages = or_else (cached_thread chat s) s.messages;
  cache = put_found chat (cached_thread chat s) s.cache;
}

-- A call of `loadMessages`, up to its request.
abbrev pub ask_messages : ℕ → Page → Page
ask_messages chat s = ask (load_messages chat) (show_cached chat s)

abbrev drop_cached : ℕ → Page → Page
drop_cached chat s = record s { cache = delete chat s.cache; stored = delete chat s.stored }

unfoldable pub presence_changed : ℕ → Bool → Option Str → Page → Page
presence_changed user is_online seen s =
    let others = keep (λ u. not (u == user)) s.online in
    let t = record s { online = if is_online then user ∷ others else others } in
    if is_online
    then t
    else elim seen [ none ↦ t | some at ↦ record t { last_seen = put user at t.last_seen } ]

-- 'member_added' and the four like it.
unfoldable pub group_changed : ℕ → Page → Page
unfolding show_cached
group_changed chat s =
    if is_open s.active chat
    then ask load_chats (ask_messages chat (ask (load_group chat) s))
    else ask load_chats s

-- 'group_deleted' and 'chat_deleted'.
unfoldable pub chat_deleted : ℕ → Page → Page
chat_deleted chat s =
    let t = record (drop_cached chat s) { chats = keep (λ c. not (c.id == chat)) s.chats } in
    if is_open s.active chat then record t { active = none; messages = []; pinned = [] } else t

unfoldable pub chat_cleared : ℕ → Page → Page
chat_cleared chat s =
    let t = drop_cached chat s in
    let chats =
      map
        (λ (c : ChatItem).
          if c.id == chat then record c { last_message = []; unread_count = 0 } else c)
        s.chats in
    if is_open s.active chat
    then record t { messages = []; pinned = []; chats = chats }
    else record t { chats = chats }

unfoldable pub pins_changed : ℕ → Page → Page
unfolding show_cached
pins_changed chat s =
    if is_open s.active chat then ask_messages chat (ask (load_pinned chat) s) else s

unfoldable pub attachments_added : ℕ → ℕ → ℕ → List Attachment → Page → Page
attachments_added me chat message atts s =
    if is_open s.active chat
    then set_thread chat (set_attachments me message atts s.messages) s
    else s

unfoldable pub message_deleted : ℕ → ℕ → Bool → Page → Page
message_deleted chat message is_deleted s =
    if is_open s.active chat
    then ask load_chats (set_thread chat (mark_deleted message is_deleted s.messages) s)
    else ask load_chats s

-- The continuation of 'edit', which starts only for the open chat.
unfoldable pub edited : Option ℕ → ℕ → ℕ → Str → Str → Page → Page
edited viewing chat message text at s =
    if is_open viewing chat then set_thread chat (apply_edit message text at s.messages) s else s

-- The text in the chat list; `trim` is `String.prototype.trim`.
unfoldable pub preview : (Str → Str) → Str → Str
preview trim text = if is_empty (trim text) then codes "📎 Вложение" else trim text

-- Whether the badge of the chat counts this message.
unfoldable pub counts_unread : Option ℕ → ℕ → NewEvent → Bool
counts_unread viewing me e =
    not (is_open viewing e.chat_id) && not (e.user_id == me) && not e.is_system && not e.replayed

unfoldable pub bump : (Str → Str) → Option ℕ → ℕ → NewEvent → Str → ChatItem → ChatItem
bump trim viewing me e text c = record c {
  last_message = preview trim text;
  updated_at = e.created_at;
  unread_count = if counts_unread viewing me e then c.unread_count + 1 else c.unread_count;
}

-- `findIndex` and the write at that index.
unfoldable pub bump_first :
    (Str → Str) → Option ℕ → ℕ → NewEvent → Str → List ChatItem → List ChatItem
bump_first trim viewing me e text [] = []
bump_first trim viewing me e text (c ∷ cs) =
    let rest = bump_first trim viewing me e text cs in
    if c.id == e.chat_id then bump trim viewing me e text c ∷ cs else c ∷ rest

-- The part of `setMessages` in the handler of 'new': nothing is written for a message that is
-- there already.
unfoldable pub add_message : NewEvent → Str → Page → Page
add_message e text s =
    if has_message e.id s.messages
    then s
    else set_thread e.chat_id (append_new (message_of e text) s.messages) s

-- `at_least` compares timestamps.
module _ (trim : Str → Str) (at_least : Str → Str → Bool) where
  unfoldable pub update_chats : Option ℕ → ℕ → NewEvent → Str → Page → Page
  update_chats viewing me e text s = elim (chat_with e.chat_id s.chats) [
    | none ↦ ask load_chats s
    | some c ↦ record s { chats = sort_chats at_least (bump_first trim viewing me e text s.chats) }
  ]

  -- The continuation of 'new', once its text is decrypted.
  unfoldable pub new_message : Option ℕ → ℕ → NewEvent → Str → Page → Page
  new_message viewing me e text s =
      let t = update_chats viewing me e text s in
      if is_open viewing e.chat_id then add_message e text t else t
