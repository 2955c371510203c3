-- ===== src/Chats/Consistent.antt =====
-- The thread on the screen and the caches in every run of the page's events.
use nothingapp.Common.{
  ℕ, ◌==◌, refl, Bool, true, false, Option, none, some, List, [], ◌∷◌, Str, Bool-cases, inl, inr,
}
use nothingapp.Chats.Page.{
  Page, is_open, group_changed, chat_deleted, chat_cleared, pins_changed, attachments_added,
  message_deleted, edited, new_message, show_cached, cached_thread,
}
use nothingapp.Chats.Navigation.{enter_chat, refetch, forget}
use nothingapp.Chats.Threads.{IsValid, set_thread-IsValid, show_cached-IsValid, delete-IsThread}
use nothingapp.Chats.Machine.{
  Event, presence, group_event, group_deleted, pin_event, deleted_chat, cleared_chat, attached,
  deleted_message, edit, new, activated, entered, reconnected, loaded, load_failed, enter_active,
  if_open, if_cached, shown_entered, shown_refetched, shown_after, shown_in, IsTimely, step, run,
  AllTimely,
}
use nothingapp.Chats.Handlers.{
  same_fields-IsValid, deleted-IsValid, cleared-IsValid, same_page, on_chat-IsValid,
  attached-IsValid, message_deleted-IsValid, edited-IsValid, new-IsValid,
}

forget-IsValid :
    (chat : ℕ) (s : Page) (shown : Option ℕ) → IsValid s shown → IsValid (forget chat s) shown
forget-IsValid chat s shown v = record {
  thread = v.thread;
  cached = delete-IsThread chat s.cache v.cached;
  stored = v.stored;
}

refetch-IsValid :
    (o : Option ℕ) (s : Page) (shown : Option ℕ)
    → IsValid s shown
    → IsValid (refetch o s) (shown_refetched o s shown)
unfolding refetch show_cached cached_thread
refetch-IsValid none s shown v = same_fields-IsValid s _ shown refl refl refl v
refetch-IsValid (some chat) s shown v =
    let w = show_cached-IsValid chat (forget chat s) shown (forget-IsValid chat s shown v) in
    same_fields-IsValid (show_cached chat (forget chat s)) _ (if_cached chat (forget chat s) shown)
      refl refl refl w

enter_active-IsValid :
    (grouped : Bool) (o : Option ℕ) (s : Page) (shown : Option ℕ)
    → IsValid s shown
    → IsValid (enter_active grouped o s) (shown_entered o s shown)
unfolding enter_chat show_cached cached_thread
enter_active-IsValid grouped none s shown v = same_fields-IsValid s _ shown refl refl refl v
enter_active-IsValid grouped (some chat) s shown v = elim (Bool-cases (chat == 0)) [
  | inl no_chat ↦ rw no_chat (same_fields-IsValid s _ shown refl refl refl v)
  | inr real ↦ rw real (
      same_fields-IsValid (show_cached chat s) _ (if_cached chat s shown) refl refl refl
        (show_cached-IsValid chat s shown v))
]

group_changed-IsValid :
    (chat : ℕ) (s : Page) (shown : Option ℕ)
    → IsValid s shown
    → IsValid (group_changed chat s) (if_open chat s shown)
unfolding group_changed show_cached cached_thread
group_changed-IsValid chat s shown v = elim (Bool-cases (is_open s.active chat)) [
  | inl here ↦ rw here (
      same_fields-IsValid (show_cached chat s) _ (if_cached chat s shown) refl refl refl
        (show_cached-IsValid chat s shown v))
  | inr other ↦ rw other (same_fields-IsValid s _ shown refl refl refl v)
]

pins_changed-IsValid :
    (chat : ℕ) (s : Page) (shown : Option ℕ)
    → IsValid s shown
    → IsValid (pins_changed chat s) (if_open chat s shown)
unfolding pins_changed show_cached cached_thread
pins_changed-IsValid chat s shown v = elim (Bool-cases (is_open s.active chat)) [
  | inl here ↦ rw here (
      same_fields-IsValid (show_cached chat s) _ (if_cached chat s shown) refl refl refl
        (show_cached-IsValid chat s shown v))
  | inr other ↦ rw other v
]

module _ (trim : Str → Str) (at_least : Str → Str → Bool) where
  step-IsValid :
      (e : Event) (s : Page) (shown : Option ℕ)
      → IsTimely e s shown
      → IsValid s shown
      → IsValid (step trim at_least e s) (shown_after e s shown)
  unfolding step
  step-IsValid (presence user is_online seen) s shown t v =
      let same = same_page user is_online seen s in
      same_fields-IsValid s _ shown same.0 same.1 same.2 v
  step-IsValid (group_event chat) s shown t v = group_changed-IsValid chat s shown v
  step-IsValid (pin_event chat) s shown t v = pins_changed-IsValid chat s shown v
  step-IsValid (group_deleted chat) s shown t v = deleted-IsValid chat s shown v
  step-IsValid (deleted_chat chat) s shown t v =
      on_chat-IsValid chat (chat_deleted chat s) s shown (deleted-IsValid chat s shown v) v
  step-IsValid (cleared_chat chat) s shown t v =
      on_chat-IsValid chat (chat_cleared chat s) s shown (cleared-IsValid chat s shown v) v
  step-IsValid (attached me chat m atts) s shown t v =
      on_chat-IsValid chat (attachments_added me chat m atts s) s shown
        (attached-IsValid me chat m atts s shown t v) v
  step-IsValid (deleted_message chat m is_deleted) s shown t v =
      on_chat-IsValid chat (message_deleted chat m is_deleted s) s shown
        (message_deleted-IsValid chat m is_deleted s shown t v) v
  step-IsValid (edit viewing chat m text at) s shown t v =
      on_chat-IsValid chat (edited viewing chat m text at s) s shown
        (edited-IsValid viewing chat m text at s shown t v) v
  step-IsValid (new viewing me e text) s shown t v =
      on_chat-IsValid e.chat_id (new_message trim at_least viewing me e text s) s shown
        (new-IsValid trim at_least viewing me e text s shown t v) v
  step-IsValid (activated chat) s shown t v = same_fields-IsValid s _ shown refl refl refl v
  step-IsValid (entered grouped) s shown t v = enter_active-IsValid grouped s.active s shown v
  step-IsValid (reconnected true) s shown t v = v
  step-IsValid (reconnected false) s shown t v = refetch-IsValid s.active s shown v
  step-IsValid (loaded chat ms) s shown t v =
      set_thread-IsValid chat ms s (some chat) shown refl t v
  step-IsValid (load_failed true) s shown t v = v
  step-IsValid (load_failed false) s shown t v = record {
    thread = λ chat e. record { own = tt; unique = tt };
    cached = v.cached;
    stored = v.stored;
  }

  -- In every run of the page's events, also where the answer to a load comes when another chat is
  -- open: the thread on the screen holds only messages of the chat whose thread was put there last,
  -- every cached thread only messages of its chat, in memory and stored, and no message comes twice
  -- in any of them. (A message that is new, edited or deleted, or gets attachments, in the chat that
  -- is open for its handler finds that chat's thread on the screen; an answer of the server holds
  -- messages of its chat, each once; and it is so at the start.)
  pub run-IsValid_timely :
      (es : List Event) (s : Page) (shown : Option ℕ)
      → AllTimely trim at_least es s shown
      → IsValid s shown
      → IsValid (run trim at_least es s) (shown_in trim at_least es s shown)
  unfolding run shown_in
  run-IsValid_timely [] s shown t v = v
  run-IsValid_timely (e ∷ es) s shown t v =
      run-IsValid_timely es (step trim at_least e s) (shown_after e s shown) t.1
        (step-IsValid e s shown t.0 v)
