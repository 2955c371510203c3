-- ===== src/Chats/Machine.antt =====
-- frontend/src/pages/ChatsPage.tsx: the events of the socket, the opening of chats and the loading of
-- threads as one step function, and the runs of the page.
use nothingapp.Common.{
  ℕ, ◌==◌, ◌≡◌, Bool, true, Option, none, some, List, [], ◌∷◌, Str, if◌then◌else◌, is_some,
}
use nothingapp.Chats.Thread.{Attachment, Message, NewEvent}
use nothingapp.Chats.Page.{
  Page, presence_changed, group_changed, chat_deleted, chat_cleared, pins_changed,
  attachments_added, message_deleted, edited, new_message, set_thread, is_open, cached_thread,
}
use nothingapp.Chats.Navigation.{enter_chat, refetch, forget}
use nothingapp.Chats.Threads.{IsThread}

-- What happens to the page. `activated` is `setActiveChatId`, `entered` and `reconnected` the two
-- effects that follow it or a new connection; `loaded` and `load_failed` are the end of a
-- `loadMessages`, whichever chat is open by then, and whether its chat had a thread to show at the
-- start. 'new' and 'edit' come with the chat that was open when they arrived.
pub data Event : Type 0 where
  presence : ℕ → Bool → Option Str → Event
  group_event group_deleted pin_event deleted_chat cleared_chat : ℕ → Event
  attached : ℕ → ℕ → ℕ → List Attachment → Event
  deleted_message : ℕ → ℕ → Bool → Event
  edit : Option ℕ → ℕ → ℕ → Str → Str → Event
  new : Option ℕ → ℕ → NewEvent → Str → Event
  activated : Option ℕ → Event
  entered reconnected load_failed : Bool → Event
  loaded : ℕ → List Message → Event

-- `if (!chatId) return`: these events are ignored for the chat id 0.
abbrev pub on_chat : ℕ → Page → Page → Page
on_chat chat t s = if chat == 0 then s else t

-- The effect of the active chat; the flag is whether that is a group.
abbrev pub enter_active : Bool → Option ℕ → Page → Page
enter_active grouped none s = record s { pinned = [] }
enter_active grouped (some chat) s =
    if chat == 0 then record s { pinned = [] } else enter_chat chat grouped s

-- Whose thread is on the screen: `loadMessages` puts its chat's there when it starts with a cached
-- one, and when its answer comes.
abbrev pub if_cached : ℕ → Page → Option ℕ → Option ℕ
if_cached chat s shown = if is_some (cached_thread chat s) then some chat else shown

abbrev pub if_open : ℕ → Page → Option ℕ → Option ℕ
if_open chat s shown = if is_open s.active chat then if_cached chat s shown else shown

abbrev pub shown_entered : Option ℕ → Page → Option ℕ → Option ℕ
shown_entered none s shown = shown
shown_entered (some chat) s shown = if chat == 0 then shown else if_cached chat s shown

abbrev pub shown_refetched : Option ℕ → Page → Option ℕ → Option ℕ
shown_refetched none s shown = shown
shown_refetched (some chat) s shown = if_cached chat (forget chat s) shown

abbrev pub shown_after : Event → Page → Option ℕ → Option ℕ
shown_after (group_event chat) s shown = if_open chat s shown
shown_after (pin_event chat) s shown = if_open chat s shown
shown_after (entered grouped) s shown = shown_entered s.active s shown
shown_after (reconnected first) s shown = if first then shown else shown_refetched s.active s shown
shown_after (loaded chat ms) s shown = some chat
shown_after _ s shown = shown

-- An event that changes the thread of the open chat is timely if that thread is on the screen. An
-- answer of the server is a thread of its chat.
abbrev pub IsTimely : Event → Page → Option ℕ → Type 0
IsTimely (attached me chat m atts) s shown = is_open s.active chat ≡ true → shown ≡ some chat
IsTimely (deleted_message chat m is_deleted) s shown =
    is_open s.active chat ≡ true → shown ≡ some chat
IsTimely (edit viewing chat m text at) s shown = is_open viewing chat ≡ true → shown ≡ some chat
IsTimely (new viewing me e text) s shown = is_open viewing e.chat_id ≡ true → shown ≡ some e.chat_id
IsTimely (loaded chat ms) s shown = IsThread chat ms
IsTimely _ s shown = Unit

module _ (trim : Str → Str) (at_least : Str → Str → Bool) where
  unfoldable pub step : Event → Page → Page
  step (presence user is_online seen) s = presence_changed user is_online seen s
  step (group_event chat) s = group_changed chat s
  step (pin_event chat) s = pins_changed chat s
  step (group_deleted chat) s = chat_deleted chat s
  step (deleted_chat chat) s = on_chat chat (chat_deleted chat s) s
  step (cleared_chat chat) s = on_chat chat (chat_cleared chat s) s
  step (attached me chat m atts) s = on_chat chat (attachments_added me chat m atts s) s
  step (deleted_message chat m is_deleted) s = on_chat chat (message_deleted chat m is_deleted s) s
  step (edit viewing chat m text at) s = on_chat chat (edited viewing chat m text at s) s
  step (new viewing me e text) s =
      on_chat e.chat_id (new_message trim at_least viewing me e text s) s
  step (activated chat) s = record s { active = chat }
  step (entered grouped) s = enter_active grouped s.active s
  step (reconnected first) s = if first then s else refetch s.active s
  step (loaded chat ms) s = set_thread chat ms s
  step (load_failed was_cached) s = if was_cached then s else record s { messages = [] }

  unfoldable pub run : List Event → Page → Page
  run [] s = s
  run (e ∷ es) s = run es (step e s)

  abbrev pub AllTimely : List Event → Page → Option ℕ → Type 0
  AllTimely [] s shown = Unit
  AllTimely (e ∷ es) s shown = IsTimely e s shown × AllTimely es (step e s) (shown_after e s shown)

  unfoldable pub shown_in : List Event → Page → Option ℕ → Option ℕ
  shown_in [] s shown = shown
  shown_in (e ∷ es) s shown = shown_in es (step e s) (shown_after e s shown)
