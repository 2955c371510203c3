-- ===== src/Composer/Uploaded.antt =====
-- Which message the effect of ChatWindow.tsx uploads files to, and how often.
use nothingapp.Common.{
  ℕ, ◌≡◌, ◌⊎◌, inl, inr, refl, sym, ap, ◌∙◌, true, false, Option, none, some, List, is_empty,
  length, ltb, arith, Option-cases,
}
use nothingapp.Crypto.Attachments.{FileInput}
use nothingapp.Chats.Thread.{Message}
use nothingapp.Composer.{Window}
use nothingapp.Composer.Upload.{UploadJob, last_of, is_mine, new_own, files_for, on_messages}

new_own_sound :
    (n : ℕ) (w : Window) (m : Message)
    → new_own n w ≡ some m
    → (ltb n (length w.messages) ≡ true) × (last_of w.messages ≡ some m) × (is_mine w.me m ≡ true)
unfolding new_own
new_own_sound n w m e = elim (Option-cases (last_of w.messages)) [
  | inl h ↦ ground (arith, rw h at e)
  | inr (x, h) ↦ ground arith
]

files_for_sound :
    (m : Message) (pending : Option (ℕ × List FileInput)) (files : List FileInput)
    → files_for m pending ≡ some files
    → (pending ≡ some (m.chat_id, files)) × (is_empty files ≡ false)
unfolding files_for
files_for_sound m none files e = cc
files_for_sound m (some (chat, fs)) files e = ground arith

nothing_pending : (n : ℕ) (w : Window) → w.pending_upload ≡ none → (on_messages n w).1 ≡ none
unfolding on_messages files_for
nothing_pending n w e = elim (Option-cases (new_own n w)) [
  | inl h ↦ rw (h, on_messages) refl
  | inr (m, h) ↦ rw (h, on_messages) (rw e refl)
]

on_messages_lem :
    (n : ℕ) (w : Window) (m : Message) (files : List FileInput)
    → new_own n w ≡ some m
    → files_for m w.pending_upload ≡ some files
    → ((on_messages n w).1 ≡ some (record { chat = m.chat_id; message = m.id; files = files }))
      × ((on_messages n w).0.pending_upload ≡ none)
unfolding on_messages
on_messages_lem n w m files own found = rw (own, on_messages) (rw found (refl, refl))

on_messages-cases :
    (n : ℕ) (w : Window)
    → ((on_messages n w).1 ≡ none)
      ⊎ ((m : Message) × (files : List FileInput) × (new_own n w ≡ some m)
          × (files_for m w.pending_upload ≡ some files))
unfolding on_messages
on_messages-cases n w = elim (Option-cases (new_own n w)) [
  | inl h ↦ inl (rw (h, on_messages) refl)
  | inr (m, h) ↦ elim (Option-cases (files_for m w.pending_upload)) [
    | inl h' ↦ inl (rw (h, on_messages) (rw h' refl))
    | inr (files, h') ↦ inr (m, files, h, h')
  ]
]

-- When the effect starts an upload, the list of messages has grown, and the files go to the message
-- at its end, which is the user's own and in the chat that the files were chosen for; there is at
-- least one file; and after that no change of the messages starts another upload of them.
pub on_messages_once :
    (n : ℕ) (w : Window) (job : UploadJob)
    → (on_messages n w).1 ≡ some job
    → (m : Message) × (ltb n (length w.messages) ≡ true)
      × (last_of w.messages ≡ some m)
      × (is_mine w.me m ≡ true)
      × (job.message ≡ m.id)
      × (w.pending_upload ≡ some (m.chat_id, job.files))
      × (is_empty job.files ≡ false)
      × ((k : ℕ) (ms : List Message)
          → (on_messages k (record (on_messages n w).0 { messages = ms })).1 ≡ none)
on_messages_once n w job e = elim (on_messages-cases n w) [
  | inl h ↦ absurd (cc)
  | inr (m, files, own, found) ↦
      let (grown, at_end, mine) = new_own_sound n w m own in
      let (pending, some_files) = files_for_sound m w.pending_upload files found in
      let (started, cleared) = on_messages_lem n w m files own found in
      let j : UploadJob = record { chat = m.chat_id; message = m.id; files = files } in
      let same : j ≡ job = cc in
      (
        m,
        grown,
        at_end,
        mine,
        ap (λ x. x.message) (sym same),
        pending ∙ ap (λ x. some (m.chat_id, x.files)) same,
        ap (λ x. is_empty x.files) (sym same) ∙ some_files,
        λ k ms. nothing_pending k (record (on_messages n w).0 { messages = ms }) cleared,
      )
]
