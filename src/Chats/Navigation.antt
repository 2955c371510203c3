-- ===== src/Chats/Navigation.antt =====
-- frontend/src/pages/ChatsPage.tsx: what opens and closes a chat: the effect of the active chat, the
-- reconnection, a tapped notification, a shared text, the back button, and the handlers of the
-- window's and the group's menus. `requests` logs what is asked of the server.
use nothingapp.Common.{
  ℕ, ◌==◌, suc, Bool, true, false, not, Option, none, some, List, [], ◌∷◌, ◌++◌, map, Str, codes,
  is_empty, keep, find_first, if◌then◌else◌, or_else,
}
use nothingapp.Common.IdMap.{delete}
use nothingapp.Common.Storage.{Storage, get_item, set_item}
use nothingapp.Chats.Thread.{ChatItem}
use nothingapp.Chats.Page.{Page, load_chats, load_pinned, load_group, is_open, ask, ask_messages}
use nothingapp.Composer.Drafts.{draft_key, same_chat}

-- The page with the rest of its state that these handlers touch; `group_shown` is whether group info
-- is on the screen.
pub record Shell : Type 0 where
  pub page : Page
  pub group_shown : Bool
  pub share_text : Option Str
  pub reload_key : ℕ
  pub connected : Bool
  pub connected_before : Bool
  pub local : Storage

abbrev pub is_group_chat : Option ChatItem → Bool
is_group_chat none = false
is_group_chat (some c) = c.is_group

abbrev with_page : (Page → Page) → Shell → Shell
with_page f s = record s { page = f s.page }

abbrev clear_unread : ℕ → List ChatItem → List ChatItem
clear_unread chat =
    map (λ (c : ChatItem). if c.id == chat then record c { unread_count = 0 } else c)

abbrev leave_chat : Shell → Shell
leave_chat s = record s { group_shown = false; page = record s.page { pinned = [] } }

-- The effect of a new active chat on the page; `grouped` is whether it is a group.
unfoldable pub enter_chat : ℕ → Bool → Page → Page
enter_chat chat grouped p =
    let asked = ask (load_pinned chat) (ask_messages chat p) in
    record asked {
      chats = clear_unread chat p.chats;
      requests = if grouped then load_group chat ∷ asked.requests else asked.requests;
    }

unfoldable pub entered : Option ℕ → Shell → Shell
unfolding enter_chat
entered none s = leave_chat s
entered (some chat) s =
    let grouped = is_group_chat (find_first (λ c. c.id == chat) s.page.chats) in
    if chat == 0 then leave_chat s else record s {
      group_shown = if grouped then s.group_shown else false;
      page = enter_chat chat grouped s.page;
    }

abbrev pub enter_active : Shell → Shell
enter_active s = entered s.page.active s

abbrev pub forget : ℕ → Page → Page
forget chat p = record p { cache = delete chat p.cache }

-- The effect of `isConnected` and the active chat, while there is a connection: the first time it
-- loads nothing.
unfoldable pub refetch : Option ℕ → Page → Page
refetch none p = ask load_chats p
refetch (some chat) p = ask_messages chat (forget chat (ask load_chats p))

unfoldable pub refresh : Shell → Shell
unfolding refetch
refresh s = record s {
  page = if s.connected_before then refetch s.page.active s.page else s.page;
  connected_before = true;
}

-- `setActiveChatId`: the effects run when it changes, in the order in which they are declared.
unfoldable pub set_active : Option ℕ → Shell → Shell
unfolding entered refresh
set_active chat s =
    if same_chat chat s.page.active
    then s
    else (let t = with_page (λ p. record p { active = chat }) s in
        enter_active (if s.connected then refresh t else t))

unfoldable pub connection_changed : Bool → Shell → Shell
unfolding refresh
connection_changed is_connected s =
    let t = record s { connected = is_connected } in if is_connected then refresh t else t

-- A tapped notification.
unfoldable pub on_pending_chat : ℕ → Shell → Shell
unfolding set_active
on_pending_chat chat s =
    with_page (ask load_chats) (set_active (some chat) (with_page (forget chat) s))

-- Whether the back button was handled.
unfoldable pub on_back : Shell → Shell × Bool
unfolding set_active
on_back s = elim s.page.active [ none ↦ (s, false) | some chat ↦ (set_active none s, true) ]

-- The draft that a shared text makes: after the draft that is there, on a line of its own.
unfoldable pub shared_draft : Option Str → Str → Str
shared_draft existing text =
    if is_empty (or_else existing []) then text else or_else existing [] ++ codes "\n" ++ text

unfoldable pub add_to_draft : ℕ → Str → Storage → Storage
unfolding shared_draft
add_to_draft chat text s = elim (get_item (draft_key chat) s) [
  | none ↦ s
  | some existing ↦ or_else (set_item (draft_key chat) (shared_draft existing text) s) s
]

unfoldable pub handle_share_to_chat : ℕ → Shell → Shell
unfolding add_to_draft set_active
handle_share_to_chat chat s = elim s.share_text [
  | none ↦ s
  | some text ↦
      (let t = record s { local = add_to_draft chat text s.local; share_text = none } in
        if is_open s.page.active chat
        then record t { reload_key = suc s.reload_key }
        else set_active (some chat) t)
]

abbrev drop_both : ℕ → Page → Page
drop_both chat p = record p { cache = delete chat p.cache; stored = delete chat p.stored }

-- The requests of these two succeeded; `viewing` is the chat that was open when they were started.
unfoldable pub handle_clear_chat : Option ℕ → ℕ → Shell → Shell
handle_clear_chat viewing chat = with_page (λ s.
    (let p = drop_both chat s in
      record p {
        messages = if is_open viewing chat then [] else p.messages;
        chats =
            map (λ (c : ChatItem). if c.id == chat then record c { last_message = [] } else c)
              p.chats;
      }))

unfoldable pub handle_delete_chat : Option ℕ → ℕ → Shell → Shell
unfolding set_active
handle_delete_chat viewing chat s =
    let t =
      with_page (λ p. record (drop_both chat p) { chats = keep (λ c. not (c.id == chat)) p.chats })
        s in
    if is_open viewing chat
    then with_page (λ p. record p { messages = [] }) (set_active none t)
    else t

unfoldable pub handle_group_updated : Shell → Shell
handle_group_updated = with_page (λ p. ask load_chats (elim p.active [
  | none ↦ p
  | some chat ↦ if chat == 0 then p else ask_messages chat (ask (load_group chat) p)
]))

-- `handleGroupDeleted` and `handleGroupLeft`.
unfoldable pub handle_group_gone : Shell → Shell
unfolding set_active
handle_group_gone s = elim s.page.active [
  | none ↦ s
  | some chat ↦
      if chat == 0
      then s
      else with_page (λ p. record p { messages = [] })
          (set_active none (
            with_page
              (λ p. record (drop_both chat p) { chats = keep (λ c. not (c.id == chat)) p.chats })
              s))
]
