-- ===== src/Composer/Delivered.antt =====
-- Messages from the window of ChatWindow.tsx to the text that the other members read.
use nothingapp.Common.{
  ℕ, ◌==◌, ◌≡◌, refl, sym, ap, ◌∙◌, true, false, Option, none, some, List, [], ◌∷◌, Str, trim,
  find_first, any_of, All,
}
use nothingapp.Crypto.Platform.{CryptoKey, Platform, Lawful, ok}
use nothingapp.Crypto.Async.{>>=-pure}
use nothingapp.Crypto.E2e.{GroupEnvelope}
use nothingapp.Crypto.E2e.ChatKey.{public_of}
use nothingapp.Crypto.E2e.Group.{Member, recipients_of}
use nothingapp.Crypto.Attachments.{GroupKeyStatus, encrypt_group_message, get_group_key_status}
use nothingapp.Crypto.Attachments.Recipients.{listed, encrypt_group_message-Readable}
use nothingapp.Chats.Incoming.{Encrypted, decrypt_event, decrypt_event-Readable}
use nothingapp.Composer.{Window, send_message}
use nothingapp.Composer.Drafts.{drop_draft}
use nothingapp.Composer.Submit.{
  group, pair, or_space, audience_of, encrypt_for, begin_submit, wait_for, finish_submit,
  finish_send, complete, submit,
}
use nothingapp.Composer.Delivery.{
  CanSend, job_of, check_submit_lem, or_space-IsPlainText, pair_payload, pair_body, pair_received,
}

-- The message went out, and the composer is empty again.
abbrev pub Sent : Window → ℕ → Encrypted → Window → Type 0
Sent w chat body v =
    (v.sent ≡ send_message chat body w.reply_to ∷ w.sent)
    × (v.text ≡ [])
    × (v.reply_to ≡ none)
    × (v.files ≡ [])
    × (v.storage ≡ drop_draft (some chat) w.storage)

begin_submit_lem :
    (w : Window) (chat : ℕ) (account : CryptoKey) (status : Option GroupKeyStatus)
    → CanSend w chat account status
    → let job = job_of w chat account (audience_of w status) in
      begin_submit w ≡ (wait_for job w, some job)
unfolding begin_submit
begin_submit_lem w chat account status can =
    rw (check_submit_lem w chat account status can, begin_submit) refl

module _ (p : Platform) where
  submit-Sent :
      (w : Window) (chat draw : ℕ) (account : CryptoKey) (status : Option GroupKeyStatus)
      (peer_key : ℕ → Option Str) (body : Encrypted)
      → CanSend w chat account status
      → (encrypt_for p peer_key (or_space (trim w.text)) account (audience_of w status) draw).0
        ≡ ok body
      → Sent w chat body (submit p peer_key draw true w)
  unfolding submit complete wait_for finish_submit finish_send
  submit-Sent w chat draw account status peer_key body can e =
      rw (begin_submit_lem w chat account status can, submit)
        (rw (e, complete) (refl, refl, refl, refl, refl))

module _ (p : Platform) (l : Lawful p) where
  -- A message written to one peer arrives: when the guards pass, the peer has published a key, and
  -- the socket accepts the message, then exactly one message goes out, to the open chat and with
  -- the reply that was chosen; the peer, who knows the sender's published key, decrypts it to the
  -- trimmed text, or to a space where there was none; and the composer and the draft are empty
  -- again. (The text is well-formed, the account keys are exportable and the ids are not 0.)
  pub submit-decrypt_event :
      (w : Window) (chat peer me draw later : ℕ) (account peer_account : CryptoKey)
      (status : Option GroupKeyStatus) (peer_key directory : ℕ → Option Str)
      → CanSend w chat account status
      → w.is_group ≡ false
      → w.other_user ≡ some peer
      → (peer == 0) ≡ false
      → (me == 0) ≡ false
      → peer_account.extractable ≡ true
      → peer_key peer ≡ some (public_of p peer_account)
      → directory me ≡ some (public_of p account)
      → (body : Encrypted) × Sent w chat body (submit p peer_key draw true w)
        × (decrypt_event p directory (some peer_account) (some peer) (some me) body later
            ≡ (ok (record { text = or_space (trim w.text); scheme = some 2; iv = some [] }), later))
  unfolding audience_of
  submit-decrypt_event w chat peer me draw later account peer_account status peer_key directory can
        two other real me_real hx known listed =
      let text = or_space (trim w.text) in
      let (s, shared, sealed) =
        pair_body p l text account peer_account peer draw peer_key real can.exportable known in
      let aud : audience_of w status ≡ pair (some peer) = rw two (rw other refl) in
      (
        pair_payload p l text s draw,
        submit-Sent p w chat draw account status peer_key _ can
            (ap (λ a. (encrypt_for p peer_key text account a draw).0) aud ∙ sealed),
        pair_received p l text account peer_account s me peer draw later directory
            (or_space-IsPlainText w.text can.well_formed) shared hx me_real listed,
      )

  -- A message written to a group arrives: when the guards pass with the status that the server's
  -- member list gives, in which every member has published a key, and the socket accepts the
  -- message, then one message goes out to the open chat; every member of the group, who knows the
  -- sender's published key, decrypts it to the trimmed text, or to a space where there was none;
  -- and the composer and the draft are empty again. (The text is well-formed, the account keys are
  -- exportable and the ids are not 0.)
  pub submit-decrypt_event_group :
      (w : Window) (chat me draw later : ℕ) (account : CryptoKey) (m : Member) (ms : List Member)
      (status : GroupKeyStatus) (reader : Member) (peer_key directory : ℕ → Option Str)
      → CanSend w chat account (some status)
      → w.is_group ≡ true
      → w.me ≡ some me
      → (me == 0) ≡ false
      → get_group_key_status (some (some (listed p (m ∷ ms)))) ≡ some status
      → any_of (λ r. r.user_id == me) (recipients_of p (m ∷ ms)) ≡ true
      → All (λ m. m.key.extractable ≡ true) (m ∷ ms)
      → find_first (λ x. x.id == reader.id) (m ∷ ms) ≡ some reader
      → (reader.id == 0) ≡ false
      → directory me ≡ some (public_of p account)
      → (body : Encrypted) × Sent w chat body (submit p peer_key draw true w)
        × (decrypt_event p directory (some reader.key) (some reader.id) (some me) body later
            ≡ (ok (record { text = or_space (trim w.text); scheme = some 2; iv = some [] }), later))
  unfolding audience_of encrypt_for
  submit-decrypt_event_group w chat me draw later account m ms status reader peer_key directory can
        grouped sender me_real fetched present hm member real known =
      let text = or_space (trim w.text) in
      let plain = or_space-IsPlainText w.text can.well_formed in
      let (s, es, fetched', sent, readable) =
        encrypt_group_message-Readable p l text account me m ms draw later plain can.exportable hm
          present in
      let same : s ≡ status = cc in
      let aud : audience_of w (some status) ≡ group status me =
        rw grouped (rw sender (rw me_real refl)) in
      let body_of : List GroupEnvelope → Encrypted =
        λ x. record { text = []; scheme = some 2; iv = none; envelopes = some x } in
      let body = body_of es in
      (
        body,
        submit-Sent p w chat draw account (some status) peer_key body can (
            ap (λ a. (encrypt_for p peer_key text account a draw).0) aud
            ∙ >>=-pure (encrypt_group_message p text status account me) body_of draw es
                (ap (λ st. (encrypt_group_message p text st account me draw).0) (sym same) ∙ sent)),
        decrypt_event-Readable p text [] account me later (m ∷ ms) es reader directory none l
            readable member real me_real known,
      )
