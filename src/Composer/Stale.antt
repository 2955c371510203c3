-- ===== src/Composer/Stale.antt =====
-- Two places of ChatWindow.tsx where what is fetched or encrypted meets a state that has moved on:
-- the status of a group whose members changed, and a message that is encrypted while another chat
-- is opened.
use nothingapp.Common.{
  ℕ, ◌==◌, ◌≡◌, refl, sym, ap, ◌∙◌, true, false, Option, none, some, List, [], ◌∷◌, map, Str, trim,
  is_empty, any_of, All, arith,
}
use nothingapp.Common.Storage.{Storage}
use nothingapp.Crypto.Platform.{CryptoKey, Platform, Lawful, ok}
use nothingapp.Crypto.Async.{>>=-pure}
use nothingapp.Crypto.E2e.{GroupEnvelope}
use nothingapp.Crypto.E2e.Group.{Member, recipients_of}
use nothingapp.Crypto.Attachments.{GroupKeyStatus, encrypt_group_message}
use nothingapp.Crypto.Attachments.Recipients.{
  status_of, get_group_key_status-listed, encrypt_group_message-Readable, encrypt_group_message_ids,
}
use nothingapp.Chats.Incoming.{Encrypted}
use nothingapp.Composer.{Window, ready}
use nothingapp.Composer.Status.{
  NamedMember, refresh_status, fetched_status, next_status, group_status,
}
use nothingapp.Composer.Drafts.{
  ChatProps, same_chat, switch_chat, save_draft, saved_storage, opening_text, draft_fits,
  drop_draft, restored_draft, enter_chat,
}
use nothingapp.Composer.Drafts.Kept.{
  saved_storage_available, drop_draft_available, restored_draft-saved_storage,
}
use nothingapp.Composer.Submit.{
  Job, or_space, group, audience_of, encrypt_for, encrypt_body, check_submit, started,
  finish_submit, finish_send,
}
use nothingapp.Composer.Delivery.{CanSend, job_of, check_submit_lem, or_space-IsPlainText}

fetched_ready :
    (w : Window) (members : List NamedMember) (username key : Option Str) (new : GroupKeyStatus)
    → w.is_group ≡ true
    → is_empty new.missing_user_ids ≡ true
    → fetched_status members username (some new) key w ≡ ready (some new)
unfolding fetched_status group_status
fetched_ready w members username key new grouped all = rw grouped (rw all refl)

refresh_status_keeps :
    (w : Window) (chat : ℕ) (old new : GroupKeyStatus) (members : List NamedMember)
    (username key : Option Str)
    → w.chat ≡ some chat
    → (chat == 0) ≡ false
    → w.is_group ≡ true
    → w.status ≡ ready (some old)
    → is_empty new.missing_user_ids ≡ true
    → refresh_status members username (some new) key w ≡ w
unfolding refresh_status
refresh_status_keeps w chat old new members username key open_chat real grouped was all =
    ap (λ s. record w { status = s })
      (ap (λ s. next_status w.chat s w.status)
          (fetched_ready w members username key new grouped all)
        ∙ ap (λ s. next_status w.chat (ready (some new)) s) was
        ∙ ap (λ c. next_status c (ready (some new)) (ready (some old))) open_chat
        ∙ kept
        ∙ sym was)
  where
    kept : next_status (some chat) (ready (some new)) (ready (some old)) ≡ ready (some old)
    kept = unfold next_status in rw real refl

-- The refreshed key status of a group never replaces one that was ready: when the server's member
-- list changes while the group is open, and its members all have keys, the next message is still
-- encrypted, and for exactly the members of the list that was fetched when the chat was opened.
-- (With that list the guards for sending pass, its members have keys, and the sender is among
-- them; the account keys are exportable and the ids are not 0.)
pub refresh_status_recipients :
    (p : Platform) (l : Lawful p) (w : Window) (chat me draw : ℕ) (account : CryptoKey) (m : Member)
    (ms : List Member) (new : GroupKeyStatus) (members : List NamedMember)
    (username key : Option Str) (peer_key : ℕ → Option Str)
    → CanSend w chat account (some (status_of p (m ∷ ms)))
    → w.is_group ≡ true
    → w.me ≡ some me
    → (me == 0) ≡ false
    → any_of (λ r. r.user_id == me) (recipients_of p (m ∷ ms)) ≡ true
    → All (λ m. m.key.extractable ≡ true) (m ∷ ms)
    → is_empty new.missing_user_ids ≡ true
    → (job : Job) × (es : List GroupEnvelope) × (check_submit
          (refresh_status members username (some new) key w)
        ≡ started job)
      × ((encrypt_body p peer_key job draw).0
          ≡ ok (record { text = []; scheme = some 2; iv = none; envelopes = some es }))
      × (map (λ e. e.recipient_id) es ≡ map (λ m. m.id) (m ∷ ms))
unfolding audience_of encrypt_for
refresh_status_recipients p l w chat me draw account m ms new members username key peer_key can
      grouped sender real present hm all =
    let old = status_of p (m ∷ ms) in
    let aud : audience_of w (some old) ≡ group old me = rw grouped (rw sender (rw real refl)) in
    let text = or_space (trim w.text) in
    let plain = or_space-IsPlainText w.text can.well_formed in
    let (s, es, fetched, sent, readable) =
      encrypt_group_message-Readable p l text account me m ms draw 0 plain can.exportable hm
        present in
    let listed' = get_group_key_status-listed p l m ms in
    let same : s ≡ old = cc in
    let sealed = ap (λ s. (encrypt_group_message p text s account me draw).0) (sym same) ∙ sent in
    (
      job_of w chat account (audience_of w (some old)),
      es,
      ap check_submit (
            refresh_status_keeps w chat old new members username key can.open_chat can.real_chat
              grouped can.is_ready all)
          ∙ check_submit_lem w chat account (some old) can,
      ap (λ a. (encrypt_for p peer_key text account a draw).0) aud
          ∙ >>=-pure (encrypt_group_message p text old account me)
              (λ x. record { text = []; scheme = some 2; iv = none; envelopes = some x }) draw es
              sealed,
      encrypt_group_message_ids p text old account me draw es sealed ∙ ids (m ∷ ms),
    )
  where
    ids : (ms : List Member) → map (λ r. r.user_id) (recipients_of p ms) ≡ map (λ m. m.id) ms
    ids [] = refl
    ids (m ∷ ms) = ap (λ t. m.id ∷ t) (ids ms)

emptied :
    (d : ℕ) (s : Storage)
    → (d == 0) ≡ false
    → s.available ≡ true
    → restored_draft d (saved_storage (some d) [] s) ≡ []
emptied d s real up =
    restored_draft-saved_storage (some d) [] s d real up (unfold draft_fits in ground arith)
    ∙ ground arith

sent_into :
    (job : Job) (body : Encrypted) (x : Window) (d : ℕ)
    → job.editing ≡ none
    → x.chat ≡ some d
    → (d == 0) ≡ false
    → x.storage.available ≡ true
    → let v = finish_submit job (ok body) true x in
      (v.chat ≡ some d) × (v.text ≡ []) × (restored_draft d (save_draft v).storage ≡ [])
unfolding finish_submit finish_send save_draft
sent_into job body x d new shows real up =
    let s = drop_draft (some job.chat) x.storage in
    rw (new, finish_submit)
      (
        shows,
        refl,
        ap (λ c. restored_draft d (saved_storage c [] s)) shows
            ∙ emptied d s real (drop_draft_available (some job.chat) x.storage ∙ up),
      )

-- What a chat shows when it is opened.
shown_lem :
    (props : ChatProps) (w : Window) (d : ℕ)
    → props.chat ≡ some d
    → (d == 0) ≡ false
    → same_chat props.chat w.chat ≡ false
    → let x = switch_chat props w in
      (x.chat ≡ some d)
      × (x.text ≡ restored_draft d x.storage)
      × (x.storage.available ≡ w.storage.available)
unfolding switch_chat enter_chat save_draft
shown_lem props w d opens real other =
    let s = saved_storage w.chat w.text w.storage in
    rw (other, switch_chat)
      (
        opens,
        ap (λ c. opening_text c s) opens ∙ unfold opening_text in rw real refl,
        saved_storage_available w.chat w.text w.storage,
      )

-- A message that is encrypted while the user opens another chat takes that chat's draft with it:
-- once it has gone out, the composer of the other chat is empty, where the draft had been shown, and
-- the timer then removes the draft from the storage. (The storage is available, the message is no
-- edit, and the id of the other chat is not 0.)
pub finish_submit_foreign :
    (job : Job) (body : Encrypted) (props : ChatProps) (w : Window) (d : ℕ)
    → job.editing ≡ none
    → props.chat ≡ some d
    → (d == 0) ≡ false
    → same_chat (some d) w.chat ≡ false
    → w.storage.available ≡ true
    → let shown = switch_chat props w in
      let v = finish_submit job (ok body) true shown in
      (shown.text ≡ restored_draft d shown.storage)
      × (v.chat ≡ some d)
      × (v.text ≡ [])
      × (restored_draft d (save_draft v).storage ≡ [])
finish_submit_foreign job body props w d new opens real other up =
    let (chat, text, available) =
      shown_lem props w d opens real (ap (λ c. same_chat c w.chat) opens ∙ other) in
    let (same, emptied_text, dropped) =
      sent_into job body (switch_chat props w) d new chat real (available ∙ up) in
    (text, same, emptied_text, dropped)
