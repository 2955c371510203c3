-- ===== src/Chats/Incoming.antt =====
-- frontend/src/shared/crypto/decryptIncoming.ts and, of frontend/src/pages/ChatsPage.tsx, the choice
-- of the ciphertext of a received message and its decryption.
use nothingapp.Common.{
  ℕ, ◌==◌, ◌≡◌, ◌⊎◌, refl, ap, Bool, true, false, Option, none, some, List, [], ◌∷◌, Str, codes,
  is_empty, find_first, if◌then◌else◌, arith, or_else, Bool-cases, inl, inr,
}
use nothingapp.Crypto.Platform.{CryptoKey, Platform, Result, ok, err, Lawful}
use nothingapp.Crypto.Async.{Async, pure, ◌>>=◌}
use nothingapp.Crypto.E2e.{GroupEnvelope, decrypt_message, derive_chat_key}
use nothingapp.Crypto.E2e.ChatKey.{public_of, public_nonempty}
use nothingapp.Crypto.E2e.Group.{Member, Readable}
use nothingapp.Crypto.PeerKeys.{get_chat_key}

abbrev pub encrypted_placeholder : Str
encrypted_placeholder = codes "[зашифрованное сообщение]"

pub record TextHolder : Type 0 where
  pub text : Str
  pub scheme : Option ℕ
  pub iv : Option Str

abbrev pub is_scheme2 : Option ℕ → Bool
is_scheme2 none = false
is_scheme2 (some n) = n == 2

abbrev unreadable : TextHolder → TextHolder
unreadable payload = record payload { text = encrypted_placeholder; iv = some [] }

-- The `try` of `decryptIncomingText`.
abbrev settle_text : TextHolder → Result Str × ℕ → Result TextHolder × ℕ
settle_text payload (ok plaintext, w) = (ok (record payload { text = plaintext; iv = some [] }), w)
settle_text payload (err e, w) = (ok (unreadable payload), w)

module _ (p : Platform) where
  unfoldable pub decrypt_incoming_text : TextHolder → Option CryptoKey → Async TextHolder
  decrypt_incoming_text payload none w =
      (ok (if is_scheme2 payload.scheme then unreadable payload else payload), w)
  decrypt_incoming_text payload (some k) w =
      let iv = or_else payload.iv [] in
      if is_scheme2 payload.scheme
      then if is_empty iv
        then (ok (unreadable payload), w)
        else settle_text payload (decrypt_message p payload.text iv k w)
      else (ok payload, w)

-- None of the envelopes is the user's: no payload.
unfoldable pub select_scheme2_payload :
    Option (List GroupEnvelope) → Str → Option Str → Option ℕ → Option (Str × Option Str)
select_scheme2_payload envelopes top_text top_iv user =
    if is_empty (or_else envelopes []) then some (top_text, top_iv) else elim user [
      | none ↦ none
      | some me ↦
          if me == 0
          then none
          else elim (find_first (λ e. e.recipient_id == me) (or_else envelopes [])) [
            | none ↦ none
            | some own ↦ some (own.ciphertext, some own.iv)
          ]
    ]

-- The ciphertext of the events 'new' and 'edit', and whose key goes with it.
pub record Encrypted : Type 0 where
  pub text : Str
  pub scheme : Option ℕ
  pub iv : Option Str
  pub envelopes : Option (List GroupEnvelope)

module _ (p : Platform) where
  -- `getChatKey(…).then(decryptIncomingText(…))`.
  unfoldable pub decrypt_payload :
      (ℕ → Option Str)
      → Option CryptoKey
      → Option ℕ
      → Option ℕ
      → Option (Str × Option Str)
      → Async TextHolder
  decrypt_payload peer_key account peer scheme none =
      pure (record { text = encrypted_placeholder; scheme = scheme; iv = none })
  decrypt_payload peer_key account peer scheme (some (text, iv)) = do
    chat_key ← get_chat_key p peer_key account peer
    decrypt_incoming_text p (record { text = text; scheme = scheme; iv = iv }) chat_key

  unfoldable pub decrypt_event :
      (ℕ → Option Str) → Option CryptoKey → Option ℕ → Option ℕ → Encrypted → Async TextHolder
  unfolding decrypt_payload
  decrypt_event peer_key account user peer e = decrypt_payload peer_key account peer e.scheme (
      if is_scheme2 e.scheme
      then select_scheme2_payload e.envelopes e.text e.iv user
      else some (e.text, e.iv))

  -- The user's own envelope, and that it reads.
  find_own :
      (text : Str) (sender : CryptoKey) (later : ℕ) (ms : List Member) (es : List GroupEnvelope)
      (m : Member)
      → Readable p text sender later ms es
      → find_first (λ x. x.id == m.id) ms ≡ some m
      → (e : GroupEnvelope) × (k : CryptoKey) × (find_first (λ x. x.recipient_id == m.id) es
          ≡ some e)
        × (derive_chat_key p m.key (public_of p sender) later ≡ (ok k, later))
        × (decrypt_message p e.ciphertext e.iv k later ≡ (ok text, later))
        × (is_empty e.iv ≡ false)
  find_own text sender later [] [] m r h = cc
  find_own text sender later [] (e ∷ es) m r h = absurd r
  find_own text sender later (x ∷ xs) [] m r h = absurd r
  find_own text sender later (x ∷ xs) (e ∷ es) m (same, (k, derived, reads, full), rest) h =
      elim (Bool-cases (x.id == m.id)) [
        | inl own ↦
            let p' : x ≡ m = ground arith in (e, k, ground arith, rw (← p') derived, reads, full)
        | inr other ↦
            let (e', k', found, derived', reads', full') =
              find_own text sender later xs es m rest (ground arith) in
            (e', k', ground arith, derived', reads', full')
      ]

  pub get_chat_key_lem :
      (peer_key : ℕ → Option Str) (account k : CryptoKey) (peer w : ℕ) (key : Str)
      → (peer == 0) ≡ false
      → peer_key peer ≡ some key
      → is_empty key ≡ false
      → derive_chat_key p account key w ≡ (ok k, w)
      → get_chat_key p peer_key (some account) (some peer) w ≡ (ok (some k), w)
  unfolding get_chat_key
  get_chat_key_lem peer_key account k peer w key real known full derived =
      rw (real, get_chat_key) (rw (known, get_chat_key) (rw full (rw derived)))

  -- `decryptIncomingText` never throws. A payload that is not of scheme 2 comes back unchanged; one
  -- of scheme 2 keeps its scheme, loses its IV, and has the decrypted text, or the placeholder where
  -- there is no key, no IV, or the decryption throws.
  pub decrypt_incoming_text_total :
      (payload : TextHolder) (key : Option CryptoKey) (w : ℕ)
      → (t : TextHolder) × ((decrypt_incoming_text p payload key w).0 ≡ ok t)
        × (((is_scheme2 payload.scheme ≡ false) × (t ≡ payload))
            ⊎ ((is_scheme2 payload.scheme ≡ true)
                × (t.scheme ≡ payload.scheme)
                × (t.iv ≡ some [])
                × ((t.text ≡ encrypted_placeholder)
                    ⊎ ((k : CryptoKey) × (key ≡ some k)
                        × ((decrypt_message p payload.text (or_else payload.iv []) k w).0
                            ≡ ok t.text)))))
  unfolding decrypt_incoming_text
  decrypt_incoming_text_total payload none w = elim (Bool-cases (is_scheme2 payload.scheme)) [
    | inl two ↦ rw two (unreadable payload, refl, inr (refl, refl, refl, inl refl))
    | inr other ↦ rw other (payload, refl, inl (refl, refl))
  ]
  decrypt_incoming_text_total payload (some k) w = elim (Bool-cases (is_scheme2 payload.scheme)) [
    | inr other ↦ rw other (payload, refl, inl (refl, refl))
    | inl two ↦ elim (Bool-cases (is_empty (or_else payload.iv []))) [
      | inl bare ↦ rw (two, bare) (unreadable payload, refl, inr (refl, refl, refl, inl refl))
      | inr full ↦
          settled (decrypt_message p payload.text (or_else payload.iv []) k w) refl two full
    ]
  ]
    where
      settled :
          (r : Result Str × ℕ)
          → decrypt_message p payload.text (or_else payload.iv []) k w ≡ r
          → is_scheme2 payload.scheme ≡ true
          → is_empty (or_else payload.iv []) ≡ false
          → (t : TextHolder) × ((decrypt_incoming_text p payload (some k) w).0 ≡ ok t)
            × (((is_scheme2 payload.scheme ≡ false) × (t ≡ payload))
                ⊎ ((is_scheme2 payload.scheme ≡ true)
                    × (t.scheme ≡ payload.scheme)
                    × (t.iv ≡ some [])
                    × ((t.text ≡ encrypted_placeholder)
                        ⊎ ((k' : CryptoKey) × (◌≡◌ {A = Option CryptoKey} (some k) (some k'))
                            × ((decrypt_message p payload.text (or_else payload.iv []) k' w).0
                                ≡ ok t.text)))))
      settled (ok plaintext, v) e two full = (
        record payload { text = plaintext; iv = some [] },
        rw (two, full, e),
        inr (two, refl, refl, inr (k, refl, ap (λ r. r.0) e)),
      )
      settled (err x, v) e two full =
          (unreadable payload, rw (two, full, e), inr (two, refl, refl, inl refl))

  -- A group message that is readable to the members is received: a member of the group who gets
  -- the broadcast, and knows the sender's public key, ends up with the very text. (The ids of the
  -- member and of the sender are not 0.)
  pub decrypt_event-Readable :
      (text top : Str) (sender : CryptoKey) (sender_id later : ℕ) (ms : List Member)
      (es : List GroupEnvelope) (m : Member) (peer_key : ℕ → Option Str) (top_iv : Option Str)
      → Lawful p
      → Readable p text sender later ms es
      → find_first (λ x. x.id == m.id) ms ≡ some m
      → (m.id == 0) ≡ false
      → (sender_id == 0) ≡ false
      → peer_key sender_id ≡ some (public_of p sender)
      → decrypt_event peer_key
          (some m.key)
          (some m.id)
          (some sender_id)
          (record { text = top; scheme = some 2; iv = top_iv; envelopes = some es })
          later
        ≡ (ok (record { text = text; scheme = some 2; iv = some [] }), later)
  unfolding decrypt_event select_scheme2_payload decrypt_incoming_text
  decrypt_event-Readable text top sender sender_id later ms es m peer_key top_iv l r member me_real
        sender_real known =
      let (e, k, found, derived, reads, full) = find_own text sender later ms es m r member in
      let some_envelopes : is_empty es ≡ false = ground arith in
      rw some_envelopes (
        rw me_real (
          rw (found, select_scheme2_payload, decrypt_payload)
            (rw
              (get_chat_key_lem peer_key m.key k sender_id later (public_of p sender) sender_real
                known (public_nonempty p l sender) derived)
              (rw full (rw reads)))))
