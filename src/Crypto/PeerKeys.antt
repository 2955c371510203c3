-- ===== src/Crypto/PeerKeys.antt =====
-- frontend/src/shared/crypto/peerKeys.ts, the cache of public keys: `cache` and `inflight` are the
-- module's maps. A request of `getPeerPublicKey` is a promise with a number; `running` holds those
-- whose `httpGet` has not settled, and `settle` is the rest of the function after that `await`.
pub mod Cache
pub mod Stale
use nothingapp.Common.{
  ℕ, suc, ◌+◌, ◌==◌, Bool, true, false, not, Option, none, some, List, [], ◌∷◌, Str, is_empty, keep,
  if◌then◌else◌,
}
use nothingapp.Common.IdMap.{IdMap, get, put, delete}
use nothingapp.Crypto.Platform.{CryptoKey, Platform, ok}
use nothingapp.Crypto.Async.{Async, pure, ◌>>=◌}
use nothingapp.Crypto.E2e.{derive_chat_key}

pub record Peers : Type 0 where
  pub cache : IdMap Str
  pub inflight : IdMap ℕ
  pub running : IdMap ℕ
  pub next : ℕ

-- How a call of `getPeerPublicKey` is answered: from the cache, by a promise that is under way, or
-- by a new one.
pub data Answer : Type 0 where
  cached : Str → Answer
  joined : ℕ → Answer
  started : ℕ → Answer

unfoldable pub get_peer_public_key : ℕ → Peers → Answer × Peers
get_peer_public_key user s = elim (get user s.cache) [
  | some key ↦ (cached key, s)
  | none ↦ elim (get user s.inflight) [
    | some promise ↦ (joined promise, s)
    | none ↦ (
      started s.next,
      record s {
        inflight = put user s.next s.inflight;
        running = (s.next, user) ∷ s.running;
        next = s.next + 1;
      },
    )
  ]
]

-- What `httpGet` ends with: it throws, or gives the profile's `public_key`.
pub data Response : Type 0 where
  failed : Response
  profile : Option Str → Response

-- `profile.public_key || null`.
abbrev pub key_of : Response → Option Str
key_of failed = none
key_of (profile none) = none
key_of (profile (some k)) = if is_empty k then none else some k

abbrev store : ℕ → Option Str → IdMap Str → IdMap Str
store user none cache = cache
store user (some key) cache = put user key cache

-- The promise of this number settles; it resolves to the key, or to null. A number that no running
-- request has changes nothing.
unfoldable pub settle : ℕ → Response → Peers → Option Str × Peers
settle promise response s = elim (get promise s.running) [
  | none ↦ (none, s)
  | some user ↦ (
    key_of response,
    record s {
      cache = store user (key_of response) s.cache;
      inflight = delete user s.inflight;
      running = delete promise s.running;
    },
  )
]

unfoldable pub clear_peer_key_cache : Peers → Peers
clear_peer_key_cache s = record s { cache = []; inflight = [] }

-- `if (userId && publicKey)`: neither missing, 0 nor empty.
unfoldable pub seed_peer_public_key : Option ℕ → Option Str → Peers → Peers
seed_peer_public_key (some user) (some key) s =
    if user == 0 then s else if is_empty key then s else record s { cache = put user key s.cache }
seed_peer_public_key _ _ s = s

abbrev pub start : Peers
start = record { cache = []; inflight = []; running = []; next = 0 }

-- `getChatKey`, given what `getPeerPublicKey` resolves to for a user.
unfoldable pub get_chat_key :
    (p : Platform) → (ℕ → Option Str) → Option CryptoKey → Option ℕ → Async (Option CryptoKey)
get_chat_key p peer_key (some account_key) (some user) =
    if user == 0 then pure none else elim (peer_key user) [
      | none ↦ pure none
      | some key ↦
          if is_empty key
          then pure none
          else do k ← derive_chat_key p account_key key; pure (some k)
    ]
get_chat_key p peer_key _ _ = pure none
