-- ===== src/Composer/Delivery.antt =====
-- From `handleSubmit` of ChatWindow.tsx to the recipient's `decryptIncomingText`: what the window
-- sends is what the other side reads.
use nothingapp.Common.{
  ℕ, ◌==◌, ◌≡◌, refl, ◌∙◌, true, false, ◌&&◌, Option, none, some, [], ◌∷◌, Str, trim, trim_head,
  mark-is_space, head_is_space, is_empty, Bool-cases, inl, inr,
}
use nothingapp.Crypto.Platform.{Bytes, CryptoKey, Platform, Lawful, IsPlainText, is_well_formed, ok}
use nothingapp.Crypto.E2e.{iv_bytes}
use nothingapp.Crypto.E2e.Base64.{b64encode_nonempty}
use nothingapp.Crypto.E2e.ChatKey.{
  public_of, secret_of, chat_key_of, derive_chat_key_lem, secret_defined, secret_comm,
  public_nonempty,
}
use nothingapp.Crypto.E2e.Message.{sealed_of, encrypt_message_lem, decrypt_message-sealed_of}
use nothingapp.Crypto.Attachments.{GroupKeyStatus}
use nothingapp.Chats.Incoming.{
  Encrypted, decrypt_event, decrypt_payload, get_chat_key_lem, select_scheme2_payload,
  decrypt_incoming_text,
}
use nothingapp.Composer.{Window, ready}
use nothingapp.Composer.Submit.{
  Audience, audience_of, Job, pair, started, or_space, ready_job, check_submit, encrypt_for,
}

-- A text that does not begin with white space does not begin with a byte order mark.
pub plain_text : (s : Str) → head_is_space s ≡ false → is_well_formed s ≡ true → IsPlainText s
unfolding IsPlainText
plain_text [] h well = (well, refl)
plain_text (c ∷ s) h well = (well, mark-is_space c h)

pub or_space-IsPlainText :
    (text : Str) → is_well_formed (or_space (trim text)) ≡ true → IsPlainText (or_space (trim text))
unfolding or_space IsPlainText
or_space-IsPlainText text well = elim (Bool-cases (is_empty (trim text))) [
  | inl e ↦ rw (e, or_space) (unfold is_well_formed in (refl, refl))
  | inr e ↦ rw (e, or_space) (plain_text (trim text) (trim_head text) (rw (e, or_space) at well))
]

-- What a window with a message ready to go starts: the guards pass.
abbrev pub job_of : Window → ℕ → CryptoKey → Audience → Job
job_of w chat account audience = record {
  chat = chat;
  text = or_space (trim w.text);
  account = account;
  audience = audience;
  editing = none;
  reply_to = w.reply_to;
}

-- A window in which a new message can go out: a chat is open, a text or a file is there, the
-- connection and the account key are there, and nothing is being edited.
pub record CanSend (w : Window) (chat : ℕ) (account : CryptoKey) (status : Option GroupKeyStatus)
    : Type 0 where
  pub open_chat : w.chat ≡ some chat
  pub real_chat : (chat == 0) ≡ false
  pub has_content : (is_empty (trim w.text) && is_empty w.files) ≡ false
  pub has_connection : w.connected ≡ true
  pub has_account : w.account ≡ some account
  pub is_ready : w.status ≡ ready status
  pub no_edit : w.editing ≡ none
  pub exportable : account.extractable ≡ true
  pub well_formed : is_well_formed (or_space (trim w.text)) ≡ true

ready_job_lem :
    (w : Window) (chat : ℕ) (text : Str) (account : CryptoKey) (status : Option GroupKeyStatus)
    → w.editing ≡ none
    → ready_job w chat text (some account) (ready status)
      ≡ started (record {
        chat = chat;
        text = or_space text;
        account = account;
        audience = audience_of w status;
        editing = none;
        reply_to = w.reply_to;
      })
unfolding ready_job
ready_job_lem w chat text account status h = rw h refl

pub check_submit_lem :
    (w : Window) (chat : ℕ) (account : CryptoKey) (status : Option GroupKeyStatus)
    → CanSend w chat account status
    → check_submit w ≡ started (job_of w chat account (audience_of w status))
unfolding check_submit audience_of or_space
check_submit_lem w chat account status h =
    rw (h.open_chat, check_submit)
      (rw h.real_chat (
        rw h.has_content (
          rw h.has_connection
            (rw h.has_account (rw h.is_ready (rw h.no_edit (unfold audience_of in refl)))))))

module _ (p : Platform) (l : Lawful p) where
  abbrev pub pair_payload : Str → Bytes → ℕ → Encrypted
  pair_payload text s draw = record {
    text = (sealed_of p l text (chat_key_of p s) draw).ciphertext;
    scheme = some 2;
    iv = some (sealed_of p l text (chat_key_of p s) draw).iv;
    envelopes = none;
  }

  pub pair_body :
      (text : Str) (account peer_account : CryptoKey) (peer draw : ℕ) (peer_key : ℕ → Option Str)
      → (peer == 0) ≡ false
      → account.extractable ≡ true
      → peer_key peer ≡ some (public_of p peer_account)
      → (s : Bytes) × (secret_of p account peer_account ≡ ok s)
        × ((encrypt_for p peer_key text account (pair (some peer)) draw).0
            ≡ ok (pair_payload text s draw))
  unfolding encrypt_for
  pair_body text account peer_account peer draw peer_key real hx known =
      let (s, e) = secret_defined p l account peer_account in
      let k = chat_key_of p s in
      (
        s,
        e,
        rw
            (get_chat_key_lem p peer_key account k peer draw (public_of p peer_account) real known
              (public_nonempty p l peer_account)
              (derive_chat_key_lem p l account peer_account s draw hx e))
            (rw (encrypt_message_lem p l text k draw refl) refl),
      )

  pub pair_received :
      (text : Str) (sender reader : CryptoKey) (s : Bytes) (sender_id reader_id draw later : ℕ)
      (directory : ℕ → Option Str)
      → IsPlainText text
      → secret_of p sender reader ≡ ok s
      → reader.extractable ≡ true
      → (sender_id == 0) ≡ false
      → directory sender_id ≡ some (public_of p sender)
      → decrypt_event p directory
          (some reader)
          (some reader_id)
          (some sender_id)
          (pair_payload text s draw)
          later
        ≡ (ok (record { text = text; scheme = some 2; iv = some [] }), later)
  unfolding decrypt_event select_scheme2_payload decrypt_incoming_text decrypt_payload
  pair_received text sender reader s sender_id reader_id draw later directory plain e hx real
        known =
      rw
        (get_chat_key_lem p directory reader (chat_key_of p s) sender_id later (public_of p sender)
          real known (public_nonempty p l sender)
          (derive_chat_key_lem p l reader sender s later hx (secret_comm p l reader sender ∙ e)))
        (rw
          (b64encode_nonempty p l (p.random_values draw iv_bytes) 11
            (l.random_length draw iv_bytes))
          (rw (decrypt_message-sealed_of p l text (chat_key_of p s) draw later plain refl) refl))
