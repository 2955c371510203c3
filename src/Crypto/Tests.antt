-- ===== src/Crypto/Tests.antt =====
-- The theorems on frontend/src/shared/crypto at concrete inputs, over the toy platform.
use nothingapp.Common.{ℕ, ◌≡◌, refl, true, false, some, List, [], ◌∷◌, Str, codes, arith}
use nothingapp.Common.IdMap.{get, put}
use nothingapp.Crypto.Platform.{CryptoKey, ok, is_well_formed, IsPlainText, Bytes}
use nothingapp.Crypto.E2e.{
  GroupRecipientKey, NewVault, VaultMaterial, setup_new_vault, open_vault, rewrap_account_key,
  derive_chat_key, public_key_base64,
}
use nothingapp.Crypto.E2e.Vault.{
  account_key_of, open_vault-setup_new_vault, open_vault-rewrap_account_key,
}
use nothingapp.Crypto.E2e.ChatKey.{
  derive_chat_key_symmetric, public_of, chat_key_of, secret_defined,
}
use nothingapp.Crypto.E2e.Group.{Member, recipients_of}
use nothingapp.Crypto.E2e.Files.{wrapped_key_of}
use nothingapp.Crypto.PeerKeys.{Peers, start, get_peer_public_key}
use nothingapp.Crypto.PeerKeys.Cache.{step, run, ask, run_one_request}
use nothingapp.Crypto.Attachments.{
  GroupKeyStatus, FileInput, AttachmentEnvelope, rewrap_attachment_envelopes,
}
use nothingapp.Crypto.Attachments.Upload.{Unwraps, rewrap_attachment_envelopes-Unwraps}
use nothingapp.Crypto.Toy.{toy, toy-Lawful, replicate}

abbrev alice : CryptoKey
alice = account_key_of (replicate 32 7)

abbrev bob : CryptoKey
bob = account_key_of (replicate 32 9)

abbrev alice_member : Member
alice_member = record { id = 1; key = alice }

abbrev bob_member : Member
bob_member = record { id = 2; key = bob }

abbrev greeting : Str
greeting = codes "Hi"

greeting_plain : IsPlainText greeting
unfolding IsPlainText is_well_formed
greeting_plain = (refl, refl)

abbrev photo : FileInput
photo = record { content = 1 ∷ 2 ∷ 3 ∷ []; name = codes "a.png"; mime = codes "image/png" }

open_vault-setup_new_vault_example :
    (v : NewVault) × ((setup_new_vault toy greeting 0).0 ≡ ok v)
    × (open_vault toy greeting v.vault 9 ≡ (ok v.account_key, 9))
    × (v.account_key.extractable ≡ true)
open_vault-setup_new_vault_example = open_vault-setup_new_vault toy toy-Lawful greeting 0 9

open_vault-rewrap_account_key_example :
    (v : VaultMaterial) × ((rewrap_account_key toy alice greeting 0).0 ≡ ok v)
    × (open_vault toy greeting v 9 ≡ (ok (account_key_of alice.handle), 9))
open_vault-rewrap_account_key_example =
    open_vault-rewrap_account_key toy toy-Lawful alice greeting 0 9 refl
      (unfold replicate in omega arith) (unfold replicate in refl)

derive_chat_key_symmetric_example :
    (pa : Str) × (pb : Str) × (chat : CryptoKey) × (public_key_base64 toy alice 0 ≡ (ok pa, 0))
    × (public_key_base64 toy bob 0 ≡ (ok pb, 0))
    × (derive_chat_key toy alice pb 0 ≡ (ok chat, 0))
    × (derive_chat_key toy bob pa 0 ≡ (ok chat, 0))
    × (chat.can_encrypt ≡ true)
    × (chat.can_decrypt ≡ true)
derive_chat_key_symmetric_example = derive_chat_key_symmetric toy toy-Lawful alice bob 0 refl refl

abbrev keyless : GroupRecipientKey
keyless = record { user_id = 3; public_key = [] }

abbrev two_status : GroupKeyStatus
two_status = record { recipients = keyless ∷ []; missing_user_ids = 3 ∷ [] }

abbrev bob_key : Str
bob_key = codes "Qk9C"

-- Two calls for user 5: the second joins the first one's request.
run_one_request_example : ◌≡◌ {A = ℕ} 0 0
unfolding run step get_peer_public_key get put
run_one_request_example = run_one_request (ask 5 ∷ ask 5 ∷ []) 0 0 5 refl refl

abbrev asked : Peers
asked = run (ask 5 ∷ ask 5 ∷ []) start

abbrev shared : Bytes
shared = (secret_defined toy toy-Lawful alice bob).0

rewrap_attachment_envelopes-Unwraps_example :
    let own = wrapped_key_of toy toy-Lawful (replicate 32 4) (chat_key_of toy shared) 3 in
    (es : List AttachmentEnvelope) × ((rewrap_attachment_envelopes toy
        (λ u. some (public_of toy bob))
        (record {
          own_encrypted_file_key = own.encrypted_file_key;
          own_envelope_iv = own.iv;
          source_sender_user_id = 2;
          recipients = recipients_of toy (bob_member ∷ []);
          account_key = alice;
        })
        8).0
      ≡ ok es)
    × Unwraps toy (replicate 32 4) alice false 50 (bob_member ∷ []) es
rewrap_attachment_envelopes-Unwraps_example =
    rewrap_attachment_envelopes-Unwraps toy toy-Lawful (λ u. some (public_of toy bob)) alice bob 2
      (replicate 32 4) shared (bob_member ∷ []) false 3 8 50 refl refl
      (secret_defined toy toy-Lawful alice bob).1 (unfold replicate in omega arith)
      (unfold replicate in refl) refl (refl, tt)
