-- ===== src/Chats/Handlers.antt =====
-- Each handler of the page keeps the open thread and the caches well-formed.
use nothingapp.Common.{
  ℕ, ◌==◌, ◌≡◌, refl, Bool, true, false, Option, none, some, List, map, Str, if◌then◌else◌,
  Bool-cases, Option-cases, inl, inr,
}
use nothingapp.Chats.Thread.{
  Attachment, Message, NewEvent, message_of, has_message, append_new, mark_deleted, apply_edit,
  set_attachments,
}
use nothingapp.Chats.ChatOrder.{chat_with}
use nothingapp.Chats.Page.{
  Page, is_open, presence_changed, chat_deleted, chat_cleared, attachments_added, message_deleted,
  edited, update_chats, add_message, new_message, set_thread,
}
use nothingapp.Chats.Threads.{
  IsValid, updated-IsThread, append-IsThread, set_thread-IsValid, delete-IsThread,
}
use nothingapp.Chats.Machine.{on_chat}

pub same_fields-IsValid :
    (s t : Page) (shown : Option ℕ)
    → t.messages ≡ s.messages
    → t.cache ≡ s.cache
    → t.stored ≡ s.stored
    → IsValid s shown
    → IsValid t shown
same_fields-IsValid s t shown m c d v = record {
  thread = λ chat e. rw m (v.thread chat e);
  cached = λ chat ms e. v.cached chat ms (rw c at e);
  stored = λ chat ms e. v.stored chat ms (rw d at e);
}

thread_update :
    (chat id : ℕ) (f : Message → Message) (s : Page) (shown : Option ℕ)
    → ((m : Message) → ((f m).id ≡ m.id) × ((f m).chat_id ≡ m.chat_id))
    → shown ≡ some chat
    → IsValid s shown
    → IsValid (set_thread chat (map (λ m. if m.id == id then f m else m) s.messages) s) shown
thread_update chat id f s shown keeps here v =
    set_thread-IsValid chat _ s shown shown here
      (updated-IsThread id f keeps chat s.messages (v.thread chat here)) v

pub deleted-IsValid :
    (chat : ℕ) (s : Page) (shown : Option ℕ) → IsValid s shown → IsValid (chat_deleted chat s) shown
unfolding chat_deleted
deleted-IsValid chat s shown v = elim (Bool-cases (is_open s.active chat)) [
  | inl here ↦ rw here (record {
    thread = λ k e. record { own = tt; unique = tt };
    cached = delete-IsThread chat s.cache v.cached;
    stored = delete-IsThread chat s.stored v.stored;
  })
  | inr other ↦ rw other (record {
    thread = v.thread;
    cached = delete-IsThread chat s.cache v.cached;
    stored = delete-IsThread chat s.stored v.stored;
  })
]

pub cleared-IsValid :
    (chat : ℕ) (s : Page) (shown : Option ℕ) → IsValid s shown → IsValid (chat_cleared chat s) shown
unfolding chat_cleared
cleared-IsValid chat s shown v = elim (Bool-cases (is_open s.active chat)) [
  | inl here ↦ rw here (record {
    thread = λ k e. record { own = tt; unique = tt };
    cached = delete-IsThread chat s.cache v.cached;
    stored = delete-IsThread chat s.stored v.stored;
  })
  | inr other ↦ rw other (record {
    thread = v.thread;
    cached = delete-IsThread chat s.cache v.cached;
    stored = delete-IsThread chat s.stored v.stored;
  })
]

add_message-IsValid :
    (e : NewEvent) (text : Str) (s : Page) (shown : Option ℕ)
    → shown ≡ some e.chat_id
    → IsValid s shown
    → IsValid (add_message e text s) shown
unfolding add_message append_new message_of
add_message-IsValid e text s shown here v = elim (Bool-cases (has_message e.id s.messages)) [
  | inl old ↦ rw old v
  | inr fresh ↦ rw fresh (
      set_thread-IsValid e.chat_id _ s shown shown here
        (append-IsThread e.chat_id (message_of e text) s.messages refl fresh
          (v.thread e.chat_id here))
        v)
]

pub same_page :
    (user : ℕ) (is_online : Bool) (seen : Option Str) (s : Page)
    → let t = presence_changed user is_online seen s in
      (t.messages ≡ s.messages) × (t.cache ≡ s.cache) × (t.stored ≡ s.stored)
unfolding presence_changed
same_page user true seen s = (refl, refl, refl)
same_page user false none s = (refl, refl, refl)
same_page user false (some at) s = (refl, refl, refl)

pub on_chat-IsValid :
    (chat : ℕ) (t s : Page) (shown : Option ℕ)
    → IsValid t shown
    → IsValid s shown
    → IsValid (on_chat chat t s) shown
on_chat-IsValid chat t s shown w v = elim (Bool-cases (chat == 0)) [
  | inl zero_id ↦ rw zero_id v
  | inr real ↦ rw real w
]

pub attached-IsValid :
    (me chat m : ℕ) (atts : List Attachment) (s : Page) (shown : Option ℕ)
    → (is_open s.active chat ≡ true → shown ≡ some chat)
    → IsValid s shown
    → IsValid (attachments_added me chat m atts s) shown
unfolding attachments_added set_attachments
attached-IsValid me chat m atts s shown timely v = elim (Bool-cases (is_open s.active chat)) [
  | inl here ↦ rw here (thread_update chat m _ s shown (λ m. (refl, refl)) (timely here) v)
  | inr other ↦ rw other v
]

pub message_deleted-IsValid :
    (chat m : ℕ) (is_deleted : Bool) (s : Page) (shown : Option ℕ)
    → (is_open s.active chat ≡ true → shown ≡ some chat)
    → IsValid s shown
    → IsValid (message_deleted chat m is_deleted s) shown
unfolding message_deleted mark_deleted
message_deleted-IsValid chat m is_deleted s shown timely v =
    elim (Bool-cases (is_open s.active chat)) [
      | inl here ↦ rw here (
          same_fields-IsValid _ _ shown refl refl refl (
            thread_update chat m (λ m. record m { is_deleted = is_deleted }) s shown
              (λ m. (refl, refl)) (timely here) v))
      | inr other ↦ rw other (same_fields-IsValid s _ shown refl refl refl v)
    ]

pub edited-IsValid :
    (viewing : Option ℕ) (chat m : ℕ) (text at : Str) (s : Page) (shown : Option ℕ)
    → (is_open viewing chat ≡ true → shown ≡ some chat)
    → IsValid s shown
    → IsValid (edited viewing chat m text at s) shown
unfolding edited apply_edit
edited-IsValid viewing chat m text at s shown timely v = elim (Bool-cases (is_open viewing chat)) [
  | inl here ↦ rw here (thread_update chat m _ s shown (λ m. (refl, refl)) (timely here) v)
  | inr other ↦ rw other v
]

module _ (trim : Str → Str) (at_least : Str → Str → Bool) where
  update_chats-IsValid :
      (viewing : Option ℕ) (me : ℕ) (e : NewEvent) (text : Str) (s : Page) (shown : Option ℕ)
      → IsValid s shown
      → IsValid (update_chats trim at_least viewing me e text s) shown
  unfolding update_chats
  update_chats-IsValid viewing me e text s shown v =
      elim (Option-cases (chat_with e.chat_id s.chats)) [
        | inl unknown ↦ rw (unknown, update_chats) (same_fields-IsValid s _ shown refl refl refl v)
        | inr (c, found) ↦ rw (found, update_chats) (same_fields-IsValid s _ shown refl refl refl v)
      ]

  pub new-IsValid :
      (viewing : Option ℕ) (me : ℕ) (e : NewEvent) (text : Str) (s : Page) (shown : Option ℕ)
      → (is_open viewing e.chat_id ≡ true → shown ≡ some e.chat_id)
      → IsValid s shown
      → IsValid (new_message trim at_least viewing me e text s) shown
  unfolding new_message
  new-IsValid viewing me e text s shown timely v =
      let valid = update_chats-IsValid viewing me e text s shown v in
      elim (Bool-cases (is_open viewing e.chat_id)) [
        | inl here ↦ rw here (add_message-IsValid e text _ shown (timely here) valid)
        | inr other ↦ rw other valid
      ]
