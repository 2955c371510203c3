-- ===== src/Crypto/Attachments/Recipients.antt =====
-- Who receives: the recipients of an attachment, the key status of a group, group messages.
use nothingapp.Common.{
  ℕ, ◌==◌, ◌≡◌, ◌≢◌, refl, ap, true, false, Option, some, List, [], ◌∷◌, map, Str, is_empty, keep,
  any_of, length, arith, Bool-cases, inl, inr, or_else, All, ◌↔◌, ◌⊎◌,
}
use nothingapp.Crypto.Platform.{
  CryptoKey, Platform, Lawful, ok, err, IsPlainText, sender_missing, members_missing,
}
use nothingapp.Crypto.E2e.{GroupRecipientKey, GroupEnvelope}
use nothingapp.Crypto.E2e.ChatKey.{public_of, public_key_base64_lem, public_nonempty}
use nothingapp.Crypto.E2e.Group.{
  Member, recipients_of, Readable, encrypt_for_group-Readable, encrypt_for_group_ids,
}
use nothingapp.Crypto.Attachments.{
  GroupMember, GroupKeyStatus, get_group_key_status, pair_recipients, resolve_attachment_recipients,
  encrypt_group_message,
}

-- The members that the server lists, with their own published keys.
abbrev pub listed : (p : Platform) → List Member → List GroupMember
listed p = map (λ m. record { user_id = m.id; public_key = public_of p m.key })

recipients-listed :
    (p : Platform) (ms : List Member)
    → map {B = GroupRecipientKey}
        (λ (m : GroupMember). record { user_id = m.user_id; public_key = m.public_key })
        (listed p ms)
      ≡ recipients_of p ms
recipients-listed p [] = refl
recipients-listed p (m ∷ ms) =
    ap (λ t. record { user_id = m.id; public_key = public_of p m.key } ∷ t) (recipients-listed p ms)

keep-recipients_of :
    (p : Platform) (l : Lawful p) (ms : List Member)
    → keep (λ r. is_empty r.public_key) (recipients_of p ms) ≡ []
keep-recipients_of p l [] = refl
keep-recipients_of p l (m ∷ ms) = rw (public_nonempty p l m.key) (keep-recipients_of p l ms)

-- The recipients of a status, and the ids of those without a key: none is missing exactly when
-- every recipient has a key, and then the message can go out.
missing_iff :
    (rs : List GroupRecipientKey)
    → (is_empty (map (λ r. r.user_id) (keep (λ r. is_empty r.public_key) rs)) ≡ true)
      ↔ (any_of (λ r. is_empty r.public_key) rs ≡ false)
missing_iff [] = (λ _. refl, λ _. refl)
missing_iff (r ∷ rs) = ground (arith, missing_iff rs)

-- The status reports a missing member exactly when some recipient of it has no key.
pub get_group_key_status-missing_iff :
    (members : Option (List GroupMember)) (s : GroupKeyStatus)
    → get_group_key_status (some members) ≡ some s
    → (is_empty s.missing_user_ids ≡ true)
      ↔ (any_of (λ r. is_empty r.public_key) s.recipients ≡ false)
unfolding get_group_key_status
get_group_key_status-missing_iff members s e =
    let rs : List GroupRecipientKey =
      map (λ m. record { user_id = m.user_id; public_key = m.public_key }) (or_else members []) in
    let a : rs ≡ s.recipients = cc in
    let b : map (λ r. r.user_id) (keep (λ r. is_empty r.public_key) rs) ≡ s.missing_user_ids = cc in
    rw (← b, ← a) (missing_iff rs)

-- The status of a group in which everyone has a key.
abbrev pub status_of : (p : Platform) → List Member → GroupKeyStatus
status_of p ms = record { recipients = recipients_of p ms; missing_user_ids = [] }

pub get_group_key_status-listed :
    (p : Platform) (l : Lawful p) (m : Member) (ms : List Member)
    → get_group_key_status (some (some (listed p (m ∷ ms)))) ≡ some (status_of p (m ∷ ms))
unfolding get_group_key_status
get_group_key_status-listed p l m ms =
    rw (recipients-listed p ms) (rw (public_nonempty p l m.key) (rw (keep-recipients_of p l ms)))

-- A group message, from the member list of the server to what the members read: when every listed
-- member has published a key and the sender is among them, the message goes out in one envelope
-- for each member, and every member reads the text. (The text is well-formed and does not begin
-- with a byte order mark; the account keys are exportable.)
pub encrypt_group_message-Readable :
    (p : Platform) (l : Lawful p) (text : Str) (sender : CryptoKey) (sender_id : ℕ) (m : Member)
    (ms : List Member) (w later : ℕ)
    → IsPlainText text
    → sender.extractable ≡ true
    → All (λ m. m.key.extractable ≡ true) (m ∷ ms)
    → any_of (λ r. r.user_id == sender_id) (recipients_of p (m ∷ ms)) ≡ true
    → (s : GroupKeyStatus) × (es : List GroupEnvelope) × (get_group_key_status
          (some (some (listed p (m ∷ ms))))
        ≡ some s)
      × ((encrypt_group_message p text s sender sender_id w).0 ≡ ok es)
      × Readable p text sender later (m ∷ ms) es
unfolding get_group_key_status encrypt_group_message
encrypt_group_message-Readable p l text sender sender_id m ms w later plain hs hm present =
    let (es, sent, readable) =
      encrypt_for_group-Readable p l text sender m ms w later plain hs hm in
    (status_of p (m ∷ ms), es, get_group_key_status-listed p l m ms, rw present sent, readable)

-- A group message is refused, with the count, when members are missing a key; and refused when the
-- sender is no recipient.
pub encrypt_group_message_refused :
    (p : Platform) (text : Str) (s : GroupKeyStatus) (sender : CryptoKey) (sender_id w : ℕ)
    → (is_empty s.missing_user_ids ≡ false
        → encrypt_group_message p text s sender sender_id w
          ≡ (err (members_missing (length s.missing_user_ids)), w))
      × (is_empty s.missing_user_ids ≡ true
          → any_of (λ r. r.user_id == sender_id) s.recipients ≡ false
          → encrypt_group_message p text s sender sender_id w ≡ (err sender_missing, w))
unfolding encrypt_group_message
encrypt_group_message_refused p text s sender sender_id w = (λ h. rw h, λ h k. rw h (rw k))

-- In a chat of two, where the peer has an id that is not 0 and a known public key, and the account
-- key is exportable, the recipients are the sender and the peer, each once: one entry when the
-- sender is the peer, and else two with different ids, the sender's key being the one that the
-- sender publishes.
pub resolve_attachment_recipients_pair :
    (p : Platform) (l : Lawful p) (peer_key : ℕ → Option Str) (sender peer : ℕ)
    (account : CryptoKey) (key : Str) (given : Option (List GroupRecipientKey)) (w : ℕ)
    → account.extractable ≡ true
    → (peer == 0) ≡ false
    → peer_key peer ≡ some key
    → is_empty key ≡ false
    → let own : GroupRecipientKey = record { user_id = sender; public_key = public_of p account } in
      let r =
        resolve_attachment_recipients p peer_key
          (record {
            is_group = false;
            group_recipients = given;
            peer_user_id = some peer;
            sender_user_id = sender;
            sender_account_key = account;
          })
          w in
      ((peer ≡ sender) × (r ≡ (ok (some (own ∷ [])), w)))
      ⊎ ((peer ≢ sender)
          × (r ≡ (ok (some (own ∷ record { user_id = peer; public_key = key } ∷ [])), w)))
unfolding resolve_attachment_recipients pair_recipients
resolve_attachment_recipients_pair p l peer_key sender peer account key given w hx real known full =
    elim (Bool-cases (peer == sender)) [
      | inl same ↦ inl (
        ground arith,
        rw (real) (
            rw (known, resolve_attachment_recipients)
              (rw full (rw (public_key_base64_lem p l account w hx) (rw same)))),
      )
      | inr other ↦ inr (
        ground arith,
        rw (real) (
            rw (known, resolve_attachment_recipients)
              (rw full (rw (public_key_base64_lem p l account w hx) (rw other)))),
      )
    ]

-- The envelopes of a group message have exactly the recipients of the status, in their order.
pub encrypt_group_message_ids :
    (p : Platform) (text : Str) (s : GroupKeyStatus) (sender : CryptoKey) (sender_id w : ℕ)
    (es : List GroupEnvelope)
    → (encrypt_group_message p text s sender sender_id w).0 ≡ ok es
    → map (λ e. e.recipient_id) es ≡ map (λ r. r.user_id) s.recipients
unfolding encrypt_group_message
encrypt_group_message_ids p text s sender sender_id w es e =
    elim (Bool-cases (is_empty s.missing_user_ids)) [
      | inr some_missing ↦ cc (rw some_missing at e)
      | inl all ↦ elim (Bool-cases (any_of (λ r. r.user_id == sender_id) s.recipients)) [
        | inr absent ↦ cc (rw absent at (rw all at e))
        | inl present ↦
            encrypt_for_group_ids p text sender s.recipients w es (rw present at (rw all at e))
      ]
    ]
