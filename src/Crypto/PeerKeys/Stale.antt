-- ===== src/Crypto/PeerKeys/Stale.antt =====
-- What a request does that is still running when the cache is cleared.
use nothingapp.Common.{ℕ, ◌≡◌, refl, some, [], Str, arith}
use nothingapp.Common.IdMap.{get, get-put}
use nothingapp.Crypto.PeerKeys.{
  Peers, cached, started, get_peer_public_key, Response, key_of, settle, clear_peer_key_cache,
}

-- Clearing leaves both maps empty, so that every user is looked up again.
pub ask-clear :
    (s : Peers) (u : ℕ) → (get_peer_public_key u (clear_peer_key_cache s)).0 ≡ started s.next
unfolding get_peer_public_key clear_peer_key_cache get
ask-clear s u = refl

-- Clearing does not reach a request that is running: when it settles with a key, the cleared cache
-- holds that key, and the next call is answered with it.
pub settle-clear :
    (s : Peers) (i u : ℕ) (r : Response) (k : Str)
    → get i s.running ≡ some u
    → key_of r ≡ some k
    → (get_peer_public_key u (settle i r (clear_peer_key_cache s)).1).0 ≡ cached k
unfolding get_peer_public_key clear_peer_key_cache settle
settle-clear s i u r k here given = ground (arith, get-put u u k [])
