-- ===== src/Chats/Opening.antt =====
-- Opening a chat in ChatsPage.tsx: what is fetched, and what the composer then shows.
use nothingapp.Common.{
  ℕ, ◌==◌, ◌≡◌, refl, ap, not, ◌∙◌, Bool, true, false, Option, none, some, ◌∷◌, Str, find_first,
  if◌then◌else◌, arith, Bool-cases, inl, inr, List, [], or_else,
}
use nothingapp.Common.IdMap.{IdMap, get, get-delete_self, get-put_self}
use nothingapp.Common.Storage.{Storage, get_item, set_item, get_item-set_item}
use nothingapp.Chats.Page.{
  Page, load_chats, load_messages, load_pinned, is_open, ask, cached_thread, show_cached,
  first_thread, put_found,
}
use nothingapp.Chats.Thread.{Message}
use nothingapp.Chats.Machine
use nothingapp.Chats.Machine.{activated, reconnected, run}
use nothingapp.Composer.Drafts.{draft_key, restored_draft, same_chat}
use nothingapp.Chats.Navigation.{
  Shell, is_group_chat, entered, enter_chat, forget, enter_active, refetch, refresh, set_active,
  shared_draft, add_to_draft, handle_share_to_chat,
}

get-put_found :
    (chat : ℕ) (m : IdMap (List Message)) (o stored : Option (List Message))
    → get chat m ≡ o
    → get chat (put_found chat (first_thread o stored) m) ≡ first_thread o stored
get-put_found chat m (some ms) stored e = get-put_self chat ms m
get-put_found chat m none none e = e
get-put_found chat m none (some []) e = e
get-put_found chat m none (some (x ∷ ms)) e = get-put_self chat (x ∷ ms) m

first_thread_again :
    (o stored : Option (List Message))
    → first_thread (first_thread o stored) stored ≡ first_thread o stored
first_thread_again (some ms) stored = refl
first_thread_again none none = refl
first_thread_again none (some []) = refl
first_thread_again none (some (m ∷ ms)) = refl

get-show_cached : (chat : ℕ) (p : Page) → get chat (show_cached chat p).cache ≡ cached_thread chat p
unfolding show_cached cached_thread
get-show_cached chat p = get-put_found chat p.cache (get chat p.cache) (get chat p.stored) refl

cached_thread-show_cached :
    (chat : ℕ) (p : Page) → cached_thread chat (show_cached chat p) ≡ cached_thread chat p
unfolding cached_thread show_cached
cached_thread-show_cached chat p =
    ap (λ o. first_thread o (get chat p.stored)) (get-show_cached chat p)
    ∙ first_thread_again (get chat p.cache) (get chat p.stored)

or_else_again :
    (o : Option (List Message)) (ms : List Message) → or_else o (or_else o ms) ≡ or_else o ms
or_else_again none ms = refl
or_else_again (some new) ms = refl

-- A second `loadMessages` finds what the first one has shown.
show_cached_again :
    (chat : ℕ) (p : Page)
    → let t = show_cached chat (show_cached chat p) in
      (get chat t.cache ≡ cached_thread chat p)
      × (t.messages ≡ or_else (cached_thread chat p) p.messages)
unfolding show_cached
show_cached_again chat p =
    let same = cached_thread-show_cached chat p in
    (
      get-show_cached chat (show_cached chat p) ∙ same,
      ap (λ o. or_else o (or_else (cached_thread chat p) p.messages)) same
          ∙ or_else_again (cached_thread chat p) p.messages,
    )

forgotten :
    (chat : ℕ) (p : Page)
    → cached_thread chat (forget chat p) ≡ first_thread none (get chat p.stored)
unfolding cached_thread
forgotten chat p = ap (λ o. first_thread o (get chat p.stored)) (get-delete_self chat p.cache)

-- Opening another chat while the connection is up, once it has been up before, runs the effect for
-- a reconnection too: the chat's thread in the memory is dropped, so that what is shown and kept at
-- first is the stored one, if it is there and not empty; the chat list is fetched again, and the
-- chat's messages are fetched twice. (The chat is no group, and its id is not 0.)
pub set_active_refetches :
    (chat : ℕ) (s : Shell)
    → (chat == 0) ≡ false
    → same_chat (some chat) s.page.active ≡ false
    → s.connected ≡ true
    → s.connected_before ≡ true
    → is_group_chat (find_first (λ c. c.id == chat) s.page.chats) ≡ false
    → let t = set_active (some chat) s in
      let stored = first_thread none (get chat s.page.stored) in
      (get chat t.page.cache ≡ stored)
      × (t.page.messages ≡ or_else stored s.page.messages)
      × (t.page.requests
          ≡ load_pinned chat
            ∷ load_messages chat
            ∷ load_messages chat
            ∷ load_chats
            ∷ s.page.requests)
unfolding set_active entered refresh refetch enter_chat show_cached
set_active_refetches chat s real other up before single =
    let p = forget chat (ask load_chats (record s.page { active = some chat })) in
    let (kept, shown) = show_cached_again chat p in
    let stored : cached_thread chat p ≡ first_thread none (get chat s.page.stored) =
      forgotten chat (ask load_chats (record s.page { active = some chat })) in
    rw (other, set_active)
      (rw (up) (
        rw before (
          rw real
            (rw single (kept ∙ stored, shown ∙ ap (λ o. or_else o s.page.messages) stored, refl)))))

-- What opening a chat does to the page is a run of its events: the chat is activated, and the two
-- effects follow.
pub set_active-run :
    (trim : Str → Str) (at_least : Str → Str → Bool) (chat : ℕ) (s : Shell)
    → same_chat (some chat) s.page.active ≡ false
    → s.connected ≡ true
    → (chat == 0) ≡ false
    → let grouped = is_group_chat (find_first (λ c. c.id == chat) s.page.chats) in
      (set_active (some chat) s).page
      ≡ run trim at_least
          (activated (some chat)
            ∷ reconnected (not s.connected_before)
            ∷ Machine.entered grouped
            ∷ [])
          s.page
unfolding set_active entered refresh refetch show_cached run Machine.step
set_active-run trim at_least chat s other up real = elim (Bool-cases s.connected_before) [
  | inl again ↦ rw (other, set_active) (rw up (rw again (rw real refl)))
  | inr once ↦ rw (other, set_active) (rw up (rw once (rw real refl)))
]

-- The effects leave these alone.
abbrev Same : Shell → Shell → Type 0
Same t s = (t.local ≡ s.local) × (t.share_text ≡ s.share_text) × (t.page.active ≡ s.page.active)

refetch_active :
    (before : Bool) (o : Option ℕ) (p : Page)
    → (if before then refetch o p else p).active ≡ p.active
unfolding refetch show_cached
refetch_active true none p = refl
refetch_active true (some c) p = refl
refetch_active false o p = refl

refresh-Same : (s : Shell) → Same (refresh s) s
unfolding refresh
refresh-Same s = (refl, refl, refetch_active s.connected_before s.page.active s.page)

entered-Same : (o : Option ℕ) (s : Shell) → Same (entered o s) s
unfolding entered enter_chat show_cached
entered-Same none s = (refl, refl, refl)
entered-Same (some c) s = elim (Bool-cases (c == 0)) [
  | inl z ↦ rw z (refl, refl, refl)
  | inr z ↦ rw z (refl, refl, refl)
]

effects-Same : (up : Bool) (t : Shell) → Same (enter_active (if up then refresh t else t)) t
effects-Same true t =
    let (local, share, active) = entered-Same (refresh t).page.active (refresh t) in
    let (local', share', active') = refresh-Same t in
    (local ∙ local', share ∙ share', active ∙ active')
effects-Same false t = entered-Same t.page.active t

set_active_lem :
    (chat : ℕ) (s : Shell)
    → same_chat (some chat) s.page.active ≡ false
    → Same (set_active (some chat) s) (record s { page = record s.page { active = some chat } })
unfolding set_active
set_active_lem chat s other =
    rw (other, set_active)
      (effects-Same s.connected (record s { page = record s.page { active = some chat } }))

not_open : (o : Option ℕ) (chat : ℕ) → is_open o chat ≡ false → same_chat (some chat) o ≡ false
not_open none chat h = refl
not_open (some c) chat h = ground arith

add_to_draft_lem :
    (chat : ℕ) (text : Str) (s after : Storage) (existing : Option Str)
    → get_item (draft_key chat) s ≡ some existing
    → set_item (draft_key chat) (shared_draft existing text) s ≡ some after
    → restored_draft chat (add_to_draft chat text s) ≡ shared_draft existing text
unfolding add_to_draft restored_draft
add_to_draft_lem chat text s after existing known written =
    rw (known, add_to_draft)
      (rw written
        (rw (get_item-set_item (draft_key chat) (shared_draft existing text) s after written) refl))

-- A text shared into a chat is what its composer opens with: alone where the chat had no draft, and
-- else on a line of its own after the draft; and the chat is the open one then. (The storage is
-- available and takes the draft; the chat was not open.)
pub handle_share_to_chat-restored_draft :
    (chat : ℕ) (text : Str) (s : Shell) (existing : Option Str) (after : Storage)
    → s.share_text ≡ some text
    → is_open s.page.active chat ≡ false
    → get_item (draft_key chat) s.local ≡ some existing
    → set_item (draft_key chat) (shared_draft existing text) s.local ≡ some after
    → let t = handle_share_to_chat chat s in
      (restored_draft chat t.local ≡ shared_draft existing text)
      × (t.share_text ≡ none)
      × (t.page.active ≡ some chat)
unfolding handle_share_to_chat
handle_share_to_chat-restored_draft chat text s existing after shared closed known written =
    let t : Shell = record s { local = add_to_draft chat text s.local; share_text = none } in
    let (local, share, active) = set_active_lem chat t (not_open s.page.active chat closed) in
    rw (shared, handle_share_to_chat)
      (rw closed (
        ap (restored_draft chat) local
            ∙ add_to_draft_lem chat text s.local after existing known written,
        share,
        active,
      ))
