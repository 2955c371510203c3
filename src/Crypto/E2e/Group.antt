-- ===== src/Crypto/E2e/Group.antt =====
-- Group messages of e2e.ts: one envelope for each recipient.
use nothingapp.Common.{
  ℕ, suc, ap, sym, ◌⊎◌, ◌≡◌, ◌≢◌, ◌∙◌, refl, inl, inr, true, false, List, [], ◌∷◌, map, Str, All,
  is_empty, any_of, Bool-cases,
}
use nothingapp.Crypto.Platform.{CryptoKey, Platform, Lawful, IsPlainText, ok}
use nothingapp.Crypto.Async.{>>=-eq-ok}
use nothingapp.Crypto.E2e.{
  GroupRecipientKey, GroupEnvelope, derive_chat_key, encrypt_message, decrypt_message,
  envelopes_for, encrypt_for_group, iv_bytes,
}
use nothingapp.Crypto.E2e.Base64.{b64encode_nonempty}
use nothingapp.Crypto.E2e.ChatKey.{
  public_of, chat_key_of, derive_chat_key_lem, secret_defined, secret_comm, public_nonempty,
}
use nothingapp.Crypto.E2e.Message.{sealed_of, encrypt_message_lem, decrypt_message-sealed_of}

-- A user with an account key.
pub record Member : Type 0 where
  pub id : ℕ
  pub key : CryptoKey

module _ (p : Platform) where
  -- The recipients that the server lists for these users.
  abbrev pub recipients_of : List Member → List GroupRecipientKey
  recipients_of = map (λ m. record { user_id = m.id; public_key = public_of p m.key })

  -- The envelopes go to these users in order, and each user reads the text from the own one, with
  -- the chat key that the user derives from the sender's public key. Its IV is not empty.
  abbrev pub Readable : Str → CryptoKey → ℕ → List Member → List GroupEnvelope → Type 0
  Readable text sender later [] [] = Unit
  Readable text sender later (m ∷ ms) (e ∷ es) =
      (e.recipient_id ≡ m.id)
      × ((k : CryptoKey) × (derive_chat_key p m.key (public_of p sender) later ≡ (ok k, later))
          × (decrypt_message p e.ciphertext e.iv k later ≡ (ok text, later))
          × (is_empty e.iv ≡ false))
      × Readable text sender later ms es
  Readable text sender later [] (e ∷ es) = ⊥
  Readable text sender later (m ∷ ms) [] = ⊥

module _ (p : Platform) (l : Lawful p) where
  envelopes_for-Readable :
      (text : Str) (sender : CryptoKey) (ms : List Member) (w later : ℕ)
      → IsPlainText text
      → sender.extractable ≡ true
      → All (λ m. m.key.extractable ≡ true) ms
      → (es : List GroupEnvelope) × (v : ℕ) × (envelopes_for p text sender (recipients_of p ms) w
          ≡ (ok es, v))
        × Readable p text sender later ms es
  unfolding envelopes_for
  envelopes_for-Readable text sender [] w later plain hs hm = ([], w, refl, tt)
  envelopes_for-Readable text sender (m ∷ ms) w later plain hs hm =
      let (s, e) = secret_defined p l sender m.key in
      let k = chat_key_of p s in
      let (es, v, rest, readable) =
        envelopes_for-Readable text sender ms (suc w) later plain hs hm.1 in
      let env : GroupEnvelope = record {
        recipient_id = m.id;
        ciphertext = (sealed_of p l text k w).ciphertext;
        iv = (sealed_of p l text k w).iv;
      } in
      (
        env ∷ es,
        v,
        rw (public_nonempty p l m.key) (
            rw (derive_chat_key_lem p l sender m.key s w hs e)
              (rw (encrypt_message_lem p l text k w refl) (rw rest))),
        (
          refl,
          (
            k,
            derive_chat_key_lem p l m.key sender s later hm.0 (secret_comm p l m.key sender ∙ e),
            decrypt_message-sealed_of p l text k w later plain refl,
            b64encode_nonempty p l (p.random_values w iv_bytes) 11 (l.random_length w iv_bytes),
          ),
          readable,
        ),
      )

  -- A message encrypted for a group: when the group is not empty, `encryptForGroup` returns one
  -- envelope for each member, in order, and every member reads the text from the own envelope.
  pub encrypt_for_group-Readable :
      (text : Str) (sender : CryptoKey) (m : Member) (ms : List Member) (w later : ℕ)
      → IsPlainText text
      → sender.extractable ≡ true
      → All (λ m. m.key.extractable ≡ true) (m ∷ ms)
      → (es : List GroupEnvelope) × ((encrypt_for_group p text
            (recipients_of p (m ∷ ms))
            sender
            w).0
          ≡ ok es)
        × Readable p text sender later (m ∷ ms) es
  unfolding encrypt_for_group
  encrypt_for_group-Readable text sender m ms w later plain hs hm =
      let (es, v, e, readable) = envelopes_for-Readable text sender (m ∷ ms) w later plain hs hm in
      (es, rw e, readable)

module _ (p : Platform) where
  envelopes_for_missing :
      (text : Str) (sender : CryptoKey) (rs : List GroupRecipientKey) (w : ℕ)
      → any_of (λ r. is_empty r.public_key) rs ≡ true
      → (es : List GroupEnvelope) → (envelopes_for p text sender rs w).0 ≢ ok es
  unfolding envelopes_for
  envelopes_for_missing text sender [] w h es e = cc
  envelopes_for_missing text sender (r ∷ rs) w h es e = elim (Bool-cases (is_empty r.public_key)) [
    | inl empty ↦ cc (rw empty at e)
    | inr full ↦
        let later : any_of (λ r. is_empty r.public_key) rs ≡ true = rw full at h in
        let (key, v, derived, e') =
          >>=-eq-ok (derive_chat_key p sender r.public_key) _ w (rw full at e) in
        let (sealed, u, done, e'') = >>=-eq-ok (encrypt_message p text key) _ v e' in
        let (rest, t, tail, last) = >>=-eq-ok (envelopes_for p text sender rs) _ u e'' in
        envelopes_for_missing text sender rs u later rest (ap (λ r. r.0) tail)
  ]

  -- `encryptForGroup` never returns envelopes when some recipient has no public key, or when there
  -- is no recipient.
  pub encrypt_for_group_strict :
      (text : Str) (sender : CryptoKey) (rs : List GroupRecipientKey) (w : ℕ)
      → (rs ≡ []) ⊎ (any_of (λ r. is_empty r.public_key) rs ≡ true)
      → (es : List GroupEnvelope) → (encrypt_for_group p text rs sender w).0 ≢ ok es
  unfolding encrypt_for_group
  encrypt_for_group_strict text sender rs w (inl none_given) es e = cc (rw none_given at e)
  encrypt_for_group_strict text sender [] w (inr missing) es e = cc
  encrypt_for_group_strict text sender (r ∷ rs) w (inr missing) es e =
      envelopes_for_missing text sender (r ∷ rs) w missing es e

  -- What is returned goes to the recipients that were given, in their order.
  pub envelopes_for_ids :
      (text : Str) (sender : CryptoKey) (rs : List GroupRecipientKey) (w : ℕ)
      (es : List GroupEnvelope)
      → (envelopes_for p text sender rs w).0 ≡ ok es
      → map (λ e. e.recipient_id) es ≡ map (λ r. r.user_id) rs
  unfolding envelopes_for
  envelopes_for_ids text sender [] w es e = cc
  envelopes_for_ids text sender (r ∷ rs) w es e = elim (Bool-cases (is_empty r.public_key)) [
    | inl empty ↦ cc (rw empty at e)
    | inr full ↦
        let (key, v, derived, e') =
          >>=-eq-ok (derive_chat_key p sender r.public_key) _ w (rw full at e) in
        let (sealed, u, done, e'') = >>=-eq-ok (encrypt_message p text key) _ v e' in
        let (rest, t, tail, last) = >>=-eq-ok (envelopes_for p text sender rs) _ u e'' in
        let ids = envelopes_for_ids text sender rs u rest (ap (λ r. r.0) tail) in
        ap (map (λ e. e.recipient_id)) (sym (returned last)) ∙ ap (λ t. r.user_id ∷ t) ids
  ]
    where
      returned : {a b : List GroupEnvelope} → ok a ≡ ok b → a ≡ b
      returned e = cc

  pub encrypt_for_group_ids :
      (text : Str) (sender : CryptoKey) (rs : List GroupRecipientKey) (w : ℕ)
      (es : List GroupEnvelope)
      → (encrypt_for_group p text rs sender w).0 ≡ ok es
      → map (λ e. e.recipient_id) es ≡ map (λ r. r.user_id) rs
  unfolding encrypt_for_group
  encrypt_for_group_ids text sender [] w es e = cc
  encrypt_for_group_ids text sender (r ∷ rs) w es e = envelopes_for_ids text sender (r ∷ rs) w es e
