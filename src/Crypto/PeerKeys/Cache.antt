-- ===== src/Crypto/PeerKeys/Cache.antt =====
-- What holds of the cache of public keys after any sequence of calls and answers.
use nothingapp.Common.{
  ℕ, ◌<◌, ◌==◌, ◌≡◌, refl, inl, inr, false, Option, none, some, List, [], ◌∷◌, Str, is_empty, arith,
  Bool-cases, Option-cases,
}
use nothingapp.Common.IdMap.{IdMap, get, get-put, get-delete, Values, Values-put, Values-get}
use nothingapp.Crypto.PeerKeys.{
  Peers, cached, started, get_peer_public_key, Response, failed, profile, key_of, settle,
  seed_peer_public_key, start, store,
}

-- The calls that the page makes, and the answers of the server. Logging out is `Stale`'s subject.
pub data Event : Type 0 where
  ask : ℕ → Event
  answer : ℕ → Response → Event
  seed : Option ℕ → Option Str → Event

unfoldable pub step : Event → Peers → Peers
step (ask user) s = (get_peer_public_key user s).1
step (answer promise r) s = (settle promise r s).1
step (seed user key) s = seed_peer_public_key user key s

unfoldable pub run : List Event → Peers → Peers
run [] s = s
run (e ∷ es) s = run es (step e s)

-- Every cached key is a key, every running request is the one that its user's calls join, numbers
-- of requests are fresh.
pub record IsValid (s : Peers) : Type 0 where
  pub keys : Values (λ k. is_empty k ≡ false) s.cache
  pub joins : (i u : ℕ) → get i s.running ≡ some u → get u s.inflight ≡ some i
  pub runs : (i u : ℕ) → get u s.inflight ≡ some i → get i s.running ≡ some u
  pub fresh : (i u : ℕ) → get i s.running ≡ some u → i < s.next

start-IsValid : IsValid start
unfolding get
start-IsValid = record { keys = tt; joins = λ i u h. cc; runs = λ i u h. cc; fresh = λ i u h. cc }

Values-store :
    (u : ℕ) (r : Response) (m : IdMap Str)
    → Values (λ k. is_empty k ≡ false) m
    → Values (λ k. is_empty k ≡ false) (store u (key_of r) m)
Values-store u failed m h = h
Values-store u (profile none) m h = h
Values-store u (profile (some [])) m h = h
Values-store u (profile (some (c ∷ k))) m h =
    Values-put (λ k. is_empty k ≡ false) u (c ∷ k) m refl h

module _ (s : Peers) (v : IsValid s) where
  ask-IsValid : (u : ℕ) → IsValid (get_peer_public_key u s).1
  unfolding get_peer_public_key
  ask-IsValid u = elim (Option-cases (get u s.cache)) [
    | inr (key, hit) ↦ rw (hit, get_peer_public_key) v
    | inl miss ↦ elim (Option-cases (get u s.inflight)) [
      | inr (i, under_way) ↦ rw (miss, under_way, get_peer_public_key) v
      | inl idle ↦
          rw (miss, idle, get_peer_public_key)
            (record {
              keys = v.keys;
              joins =
                  λ i w h. unfold get in ground (arith, get-put u w s.next s.inflight, v.joins i w);
              runs = λ i w h.
                  unfold get in
                  ground (arith, get-put u w s.next s.inflight, v.runs i w, v.fresh i w);
              fresh = λ i w h. unfold get in ground (arith, v.fresh i w);
            })
    ]
  ]

  settle-IsValid : (promise : ℕ) (r : Response) → IsValid (settle promise r s).1
  unfolding settle
  settle-IsValid promise r = elim (Option-cases (get promise s.running)) [
    | inl gone ↦ rw (gone, settle) v
    | inr (w, here) ↦
        rw (here, settle)
          (record {
            keys = Values-store w r s.cache v.keys;
            joins = λ i x h. ground (
              arith,
              get-delete promise i s.running,
              get-delete w x s.inflight,
              v.joins i x,
              v.joins promise w,
            );
            runs = λ i x h. ground (
              arith,
              get-delete promise i s.running,
              get-delete w x s.inflight,
              v.runs i x,
              v.joins promise w,
            );
            fresh = λ i x h. ground (arith, get-delete promise i s.running, v.fresh i x);
          })
  ]

seed-IsValid :
    (u : Option ℕ) (k : Option Str) (s : Peers) → IsValid s → IsValid (seed_peer_public_key u k s)
unfolding seed_peer_public_key
seed-IsValid none k s v = v
seed-IsValid (some u) none s v = v
seed-IsValid (some u) (some []) s v = elim (Bool-cases (u == 0)) [
  | inl zero_id ↦ rw zero_id v
  | inr real ↦ rw real v
]
seed-IsValid (some u) (some (c ∷ k)) s v = elim (Bool-cases (u == 0)) [
  | inl zero_id ↦ rw zero_id v
  | inr real ↦ rw real (record {
    keys = Values-put (λ k. is_empty k ≡ false) u (c ∷ k) s.cache refl v.keys;
    joins = v.joins;
    runs = v.runs;
    fresh = v.fresh;
  })
]

step-IsValid : (e : Event) (s : Peers) → IsValid s → IsValid (step e s)
unfolding step
step-IsValid (ask u) s v = ask-IsValid s v u
step-IsValid (answer i r) s v = settle-IsValid s v i r
step-IsValid (seed u k) s v = seed-IsValid u k s v

run-IsValid : (es : List Event) (s : Peers) → IsValid s → IsValid (run es s)
unfolding run
run-IsValid [] s v = v
run-IsValid (e ∷ es) s v = run-IsValid es (step e s) (step-IsValid e s v)

-- However the calls and the answers interleave, no two running requests are for one user.
pub run_one_request :
    (es : List Event) (i j u : ℕ)
    → get i (run es start).running ≡ some u
    → get j (run es start).running ≡ some u
    → i ≡ j
run_one_request es i j u hi hj =
    let v = run-IsValid es start start-IsValid in ground (arith, v.joins i u hi, v.joins j u hj)

-- However the calls and the answers interleave, the cache holds no empty key.
pub run_keys :
    (es : List Event) (u : ℕ) (k : Str) → get u (run es start).cache ≡ some k → is_empty k ≡ false
run_keys es u k h =
    Values-get (λ k. is_empty k ≡ false) u k (run es start).cache
      (run-IsValid es start start-IsValid).keys h

-- A user who has no key, or whose request failed, is asked for again: when the request settles
-- without a key, it resolves to null and the next call starts a new one.
pub ask-settle :
    (s : Peers) (i u : ℕ) (r : Response)
    → get i s.running ≡ some u
    → get u s.cache ≡ none
    → key_of r ≡ none
    → ((settle i r s).0 ≡ none) × ((get_peer_public_key u (settle i r s).1).0 ≡ started s.next)
unfolding get_peer_public_key settle
ask-settle s i u r here miss nothing = ground (arith, get-delete u u s.inflight)

-- When the request settles with a key, it resolves to the key, and the next call answers from the
-- cache.
pub ask-settle_key :
    (s : Peers) (i u : ℕ) (r : Response) (k : Str)
    → get i s.running ≡ some u
    → key_of r ≡ some k
    → ((settle i r s).0 ≡ some k)
      × (get_peer_public_key u (settle i r s).1 ≡ (cached k, (settle i r s).1))
unfolding get_peer_public_key settle
ask-settle_key s i u r k here given = ground (arith, get-put u u k s.cache)
