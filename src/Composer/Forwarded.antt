-- ===== src/Composer/Forwarded.antt =====
-- Forwarding in ChatWindow.tsx: what the recipient reads, and whom the message is credited to.
use nothingapp.Common.{
  ℕ, suc, ◌==◌, ◌≡◌, refl, true, false, Option, none, some, List, [], Str, trim, trim_head,
  is_empty, keep, inl, inr,
}
use nothingapp.Crypto.Platform.{Bytes, CryptoKey, Platform, Lawful, is_well_formed, ok}
use nothingapp.Crypto.E2e.{GroupRecipientKey}
use nothingapp.Crypto.E2e.ChatKey.{
  public_of, secret_of, chat_key_of, derive_chat_key_lem, secret_defined, public_nonempty,
}
use nothingapp.Crypto.E2e.Message.{encrypt_message_lem}
use nothingapp.Crypto.Attachments.{GroupMember, resolve_attachment_recipients}
use nothingapp.Crypto.Attachments.Recipients.{resolve_attachment_recipients_pair}
use nothingapp.Chats.Thread.{Message, ChatItem, NewEvent, message_of}
use nothingapp.Chats.Incoming.{Encrypted, decrypt_event, get_chat_key_lem}
use nothingapp.Composer.{Window}
use nothingapp.Composer.Delivery.{plain_text, pair_payload, pair_received}
use nothingapp.Composer.Forward.{
  ForwardPayload, ForwardJob, payload, can_rewrap, forward_text, original_author, forward_job,
  check_forward, begin_forward, payload_of, attach, forward_with, forward_to_peer, encrypt_forward,
  started,
}

-- The job of a message without attachments of one's own envelope.
abbrev pub text_job : Message → CryptoKey → ℕ → ForwardJob
text_job m account me = record {
  source = m;
  attachments = [];
  text = trim m.text;
  account = account;
  me = me;
}

check_forward_lem :
    (w : Window) (m : Message) (account : CryptoKey) (me : ℕ)
    → w.forwarding_message ≡ some m
    → w.account ≡ some account
    → w.me ≡ some me
    → (me == 0) ≡ false
    → keep can_rewrap m.attachments ≡ []
    → is_empty (trim m.text) ≡ false
    → check_forward w ≡ started (text_job m account me)
unfolding check_forward forward_job forward_text
check_forward_lem w m account me chosen key user real bare full =
    rw (chosen, check_forward) (rw key (rw user (rw real (rw bare (rw full (rw full refl))))))

begin_forward_lem :
    (w : Window) (job : ForwardJob) → check_forward w ≡ started job → (begin_forward w).1 ≡ some job
unfolding begin_forward
begin_forward_lem w job e = rw (e, begin_forward) refl

-- A forwarded message names the same author again when it is forwarded further.
author_again :
    (m : Message) (e : NewEvent) (text : Str)
    → (original_author m == 0) ≡ false
    → original_author (message_of (record e { forwarded_from_user_id = original_author m }) text)
      ≡ original_author m
author_again m e text real = go (original_author m) real
  where
    go :
        (n : ℕ)
        → (n == 0) ≡ false
        → original_author (message_of (record e { forwarded_from_user_id = n }) text) ≡ n
    go n h = unfold message_of original_author in rw h (rw h refl)

module _ (p : Platform) (l : Lawful p) where
  attach_text :
      (m : Message) (account : CryptoKey) (me draw : ℕ) (peer_key : ℕ → Option Str)
      (body : Encrypted) (rs : Option (List GroupRecipientKey))
      → attach p peer_key (text_job m account me) body rs draw
        ≡ (ok (payload_of (text_job m account me) body none), draw)
  unfolding attach
  attach_text m account me draw peer_key body none = refl
  attach_text m account me draw peer_key body (some rs) = refl

  -- The recipients of the attachments are worked out, also where there are none to be sent.
  resolved :
      (peer_key : ℕ → Option Str) (sender peer draw : ℕ) (account : CryptoKey) (key : Str)
      → account.extractable ≡ true
      → (peer == 0) ≡ false
      → peer_key peer ≡ some key
      → is_empty key ≡ false
      → (rs : Option (List GroupRecipientKey)) × (resolve_attachment_recipients p peer_key
            (record {
              is_group = false;
              group_recipients = none;
              peer_user_id = some peer;
              sender_user_id = sender;
              sender_account_key = account;
            })
            draw
          ≡ (ok rs, draw))
  resolved peer_key sender peer draw account key hx real known full =
      elim (resolve_attachment_recipients_pair p l peer_key sender peer account key none draw hx
        real known full) [ inl (same, e) ↦ (_, e) | inr (other, e) ↦ (_, e) ]

  forward_to_peer_lem :
      (m : Message) (account peer_account : CryptoKey) (me peer draw : ℕ)
      (peer_key : ℕ → Option Str)
      → (peer == 0) ≡ false
      → account.extractable ≡ true
      → peer_key peer ≡ some (public_of p peer_account)
      → (s : Bytes) × (secret_of p account peer_account ≡ ok s)
        × ((forward_to_peer p peer_key (text_job m account me) (some peer) draw).0
            ≡ ok (payload_of (text_job m account me) (pair_payload p l (trim m.text) s draw) none))
  unfolding forward_to_peer forward_with
  forward_to_peer_lem m account peer_account me peer draw peer_key real hx known =
      let (s, e) = secret_defined p l account peer_account in
      let k = chat_key_of p s in
      let published = public_nonempty p l peer_account in
      let (rs, found) =
        resolved peer_key me peer (suc draw) account (public_of p peer_account) hx real known
          published in
      (
        s,
        e,
        rw
            (get_chat_key_lem p peer_key account k peer draw (public_of p peer_account) real known
              published (derive_chat_key_lem p l account peer_account s draw hx e))
            (rw (encrypt_message_lem p l (trim m.text) k draw refl)
              (rw found (rw (attach_text m account me (suc draw) peer_key _ rs) refl))),
      )

  -- Forwarding a text to one user: the handler encrypts it anew, the user who gets it decrypts it
  -- to the trimmed text of the source, and it is credited to the first author, not to whoever
  -- forwards it, and still is when it is forwarded once more. (The window has the account key; the
  -- message has a text and no attachment with an own envelope; the recipient has published a key
  -- and knows the forwarding user's; the text is well-formed, the account keys are exportable and
  -- the ids are not 0.)
  pub forward-decrypt_event :
      (w : Window) (m : Message) (dest : ChatItem) (e : NewEvent) (again : Str)
      (account peer_account : CryptoKey) (me peer draw later : ℕ)
      (fetched : Option (Option (List GroupMember))) (peer_key directory : ℕ → Option Str)
      → w.forwarding_message ≡ some m
      → w.account ≡ some account
      → w.me ≡ some me
      → (me == 0) ≡ false
      → (original_author m == 0) ≡ false
      → keep can_rewrap m.attachments ≡ []
      → is_empty (trim m.text) ≡ false
      → is_well_formed (trim m.text) ≡ true
      → dest.is_group ≡ false
      → dest.other_user_id ≡ some peer
      → (peer == 0) ≡ false
      → account.extractable ≡ true
      → peer_account.extractable ≡ true
      → peer_key peer ≡ some (public_of p peer_account)
      → directory me ≡ some (public_of p account)
      → (job : ForwardJob) × (f : ForwardPayload) × ((begin_forward w).1 ≡ some job)
        × ((encrypt_forward p peer_key fetched dest job draw).0 ≡ ok (payload f))
        × (decrypt_event p directory (some peer_account) (some peer) (some me) f.body later
            ≡ (ok (record { text = trim m.text; scheme = some 2; iv = some [] }), later))
        × (f.forwarded_from ≡ original_author m)
        × (original_author
              (message_of (record e { forwarded_from_user_id = f.forwarded_from }) again)
            ≡ original_author m)
  unfolding encrypt_forward payload_of
  forward-decrypt_event w m dest e again account peer_account me peer draw later fetched peer_key
        directory chosen key user me_real author_real bare full well two other real hx hp known
        listed =
      let (s, shared, sealed) =
        forward_to_peer_lem m account peer_account me peer draw peer_key real hx known in
      (
        text_job m account me,
        record {
          body = pair_payload p l (trim m.text) s draw;
          forwarded_from = original_author m;
          attachments = none;
        },
        begin_forward_lem w (text_job m account me)
            (check_forward_lem w m account me chosen key user me_real bare full),
        rw two (rw other (rw real sealed)),
        pair_received p l (trim m.text) account peer_account s me peer draw later directory
            (plain_text (trim m.text) (trim_head m.text) well) shared hp me_real listed,
        refl,
        author_again m e again author_real,
      )
