-- ===== src/Crypto/E2e/Tests.antt =====
-- The theorems on the stored account key at a concrete key and storage.
use nothingapp.Common.{◌≡◌, refl, true, some, [], ◌∷◌, arith}
use nothingapp.Common.Storage.{Storage, set_item, insert}
use nothingapp.Crypto.Platform.{CryptoKey, ok}
use nothingapp.Crypto.E2e.{b64encode}
use nothingapp.Crypto.E2e.Vault.{account_key_of}
use nothingapp.Crypto.E2e.Stored.{
  KeyStore, stored_account_key, save_account_key, load_stored_account_key, hydrate_account_key,
  load-save,
}
use nothingapp.Crypto.Toy.{toy, toy-Lawful, replicate}

abbrev alice : CryptoKey
alice = account_key_of (replicate 32 7)

abbrev empty : Storage
empty = record { items = []; available = true; quota = 5000 }

abbrev with_key : Storage
with_key = record empty { items = (stored_account_key, b64encode toy alice.handle) ∷ [] }

abbrev phone : KeyStore
phone = record { native = true; local = empty; prefs = [] }

load-save_example :
    (t : KeyStore) × (save_account_key toy alice phone ≡ ok t)
    × (load_stored_account_key toy t 4 ≡ some (some (account_key_of alice.handle)))
    × (load_stored_account_key toy (hydrate_account_key (record t { local = empty })) 4
        ≡ some (some (account_key_of alice.handle)))
unfolding set_item insert b64encode
load-save_example =
    load-save toy toy-Lawful alice (unfold replicate in omega arith) (unfold replicate in refl)
      phone with_key empty with_key 4 refl refl (unfold replicate in refl)
      (unfold replicate in refl)

abbrev left : KeyStore
left = record { native = true; local = with_key; prefs = [] }
