-- ===== src/Socket/Retries.antt =====
-- How long the hook waits and when it gives up, and a socket that closes late.
use nothingapp.Common.{
  ℕ, suc, ◌+◌, ◌*◌, ◌^◌, ◌≤◌, ◌≡◌, refl, ap, ◌∙◌, min, leb, length, if◌then◌else◌, Bool, true,
  false, not, Option, none, some, List, [], ◌∷◌, ◌++◌, arith, ==_refl, Bool-cases, inl, inr, leb→le,
  sym,
}
use nothingapp.Common.IdMap.{get, put, delete, get-delete}
use nothingapp.Socket.Hook.{
  Hook, Event, ReadyState, connecting, forget_socket, init_fires, reconnect_fires, opened, closed,
  closing, open_state, schedule_reconnect, on_open, on_close, connect, reconnect, init_timeout,
  can_send, step, run, mounted,
}

-- The socket with this number closes, after it had opened or without.
abbrev pub fails : ℕ → Bool → List Event
fails i true = opened i ∷ closed i ∷ []
fails i false = closed i ∷ []

-- The connections from this number on fail, each when the timer for it has fired.
abbrev pub outage : ℕ → List Bool → List Event
outage i [] = []
outage i (b ∷ bs) = reconnect_fires ∷ fails i b ++ outage (suc i) bs

-- The hook after so many failures, while it still waits.
abbrev waiting : ℕ → ℕ → Option ℕ → Hook
waiting n attempts timer = record {
  is_active = true;
  in_progress = false;
  sockets = [];
  next = n;
  ws = none;
  is_connected = false;
  attempts = attempts;
  reconnect_timer = timer;
  stable_timer = false;
  init_timer = false;
  hidden = false;
}

-- While its socket is connecting, or open.
abbrev trying : ℕ → ℕ → Bool → ReadyState → Hook
trying n attempts is_up state = record {
  is_active = true;
  in_progress = not is_up;
  sockets = (n, state) ∷ [];
  next = n + 1;
  ws = some n;
  is_connected = is_up;
  attempts = attempts;
  reconnect_timer = none;
  stable_timer = is_up;
  init_timer = false;
  hidden = false;
}

on_open-trying : (n a : ℕ) → on_open n (trying n a false connecting) ≡ trying n a true open_state
unfolding on_open get put
on_open-trying n a = ground (arith, ==_refl n)

get-one : (n : ℕ) (state : ReadyState) → get n ((n, state) ∷ []) ≡ some state
unfolding get
get-one n state = ground (arith, ==_refl n)

delete-one : (n : ℕ) (state : ReadyState) → delete n ((n, state) ∷ []) ≡ []
unfolding delete
delete-one n state = ground (arith, ==_refl n)

forget_socket-trying :
    (n a : ℕ) (up : Bool) (state : ReadyState)
    → forget_socket n (trying n a up state) ≡ waiting (n + 1) a none
forget_socket-trying n a up state = λ i. record {
  is_active = true;
  in_progress = false;
  sockets = delete-one n state i;
  next = n + 1;
  ws = if (==_refl n) i then none else some n;
  is_connected = false;
  attempts = a;
  reconnect_timer = none;
  stable_timer = false;
  init_timer = false;
  hidden = false;
}

on_close-trying :
    (n a : ℕ) (up : Bool) (state : ReadyState)
    → on_close n (trying n a up state) ≡ schedule_reconnect (waiting (n + 1) a none)
unfolding on_close
on_close-trying n a up state =
    rw (get-one n state, on_close) (ap schedule_reconnect (forget_socket-trying n a up state))

failed_attempt :
    (n a d : ℕ) (b : Bool) (es : List Event)
    → run (reconnect_fires ∷ fails n b ++ es) (waiting n a (some d))
      ≡ run es (schedule_reconnect (waiting (n + 1) a none))
unfolding run step reconnect connect
failed_attempt n a d true es =
    ap (run es) (ap (on_close n) (on_open-trying n a) ∙ on_close-trying n a true open_state)
failed_attempt n a d false es = ap (run es) (on_close-trying n a false connecting)

gave_up :
    (n i : ℕ) (b : Bool) (es : List Event)
    → run (reconnect_fires ∷ fails i b ++ es) (waiting n 20 none) ≡ run es (waiting n 20 none)
unfolding run step reconnect connect on_open on_close schedule_reconnect get put
gave_up n i true es = refl
gave_up n i false es = refl

-- The hook after the failures 0 to j.
abbrev failed_until : ℕ → Hook
failed_until j =
    waiting (min (suc j) 21) (min (suc j) 20)
      (if leb j 19 then some (min (1000 * 2 ^ j) 30000) else none)

schedule_reconnect-waiting :
    (n a : ℕ)
    → a ≤ 20
    → schedule_reconnect (waiting n a none)
      ≡ waiting n (min (suc a) 20) (if leb a 19 then some (min (1000 * 2 ^ a) 30000) else none)
unfolding schedule_reconnect
schedule_reconnect-waiting n a le = elim (Bool-cases (leb a 19)) [
  | inl few ↦
      let less : leb 20 a ≡ false = ground arith in
      let counted : a + 1 ≡ min (suc a) 20 = omega (arith, leb→le a 19 few) in
      rw less (rw few (λ i. waiting n (counted i) (some (min (1000 * 2 ^ a) 30000))))
  | inr last ↦
      let full : leb 20 a ≡ true = ground arith in
      let counted : a ≡ min (suc a) 20 = ground arith in
      rw full (rw last (λ i. waiting n (counted i) none))
]

failed_until_end : (j : ℕ) → leb j 19 ≡ false → failed_until j ≡ waiting 21 20 none
failed_until_end j over =
    let number : min (suc j) 21 ≡ 21 = ground arith in
    let counted : min (suc j) 20 ≡ 20 = ground arith in rw number (rw counted (rw over refl))

next_failure :
    (j : ℕ) (b : Bool) (es : List Event)
    → run (reconnect_fires ∷ fails (suc j) b ++ es) (failed_until j) ≡ run es (failed_until (suc j))
next_failure j b es = elim (Bool-cases (leb j 19)) [
  | inl few ↦
      let number : min (suc j) 21 ≡ suc j = omega (arith, leb→le j 19 few) in
      let counted : min (suc j) 20 ≡ suc j = omega (arith, leb→le j 19 few) in
      let next : suc j + 1 ≡ min (suc (suc j)) 21 = omega (arith, leb→le j 19 few) in
      let start : failed_until j ≡ waiting (suc j) (suc j) (some (min (1000 * 2 ^ j) 30000)) =
        rw number (rw counted (rw few refl)) in
      ap (run (reconnect_fires ∷ fails (suc j) b ++ es)) start
      ∙ failed_attempt (suc j) (suc j) _ b es
      ∙ ap (run es) (
          schedule_reconnect-waiting (suc j + 1) (suc j) (omega (arith, leb→le j 19 few)) ∙ (λ i.
            waiting (next i) (min (suc (suc j)) 20)
              (if leb (suc j) 19 then some (min (1000 * 2 ^ suc j) 30000) else none)))
  | inr over ↦
      let later : leb (suc j) 19 ≡ false = ground arith in
      ap (run (reconnect_fires ∷ fails (suc j) b ++ es)) (failed_until_end j over)
      ∙ gave_up 21 (suc j) b es
      ∙ ap (run es) (sym (failed_until_end (suc j) later))
]

run-outage :
    (j : ℕ) (bs : List Bool)
    → run (outage (suc j) bs) (failed_until j) ≡ failed_until (j + length bs)
unfolding run
run-outage j [] = ap failed_until (omega arith)
run-outage j (b ∷ bs) =
    next_failure j b (outage (suc (suc j)) bs)
    ∙ run-outage (suc j) bs
    ∙ ap failed_until (omega arith)

first_failure :
    (b : Bool) (es : List Event)
    → run (init_fires ∷ fails 0 b ++ es) mounted ≡ run es (failed_until 0)
unfolding run step init_timeout connect on_open on_close schedule_reconnect get put delete
first_failure true es = refl
first_failure false es = refl

-- When every connection of the hook fails, whether or not it had opened before it closed, and the
-- page stays visible: each failure is counted, up to 20 of them; the n-th failure (from 0) sets a
-- timer of 2^n seconds, 30 at most, while n is below 20; the failure after that leaves no timer, and
-- no socket is made any more, so that there are 21 of them in all. After each failure the hook shows
-- no connection and does not send. (No connection lasts until it counts as stable.)
pub run-outage_ends :
    (first : Bool) (bs : List Bool)
    → let n = length bs in
      let t = run (init_fires ∷ fails 0 first ++ outage 1 bs) mounted in
      (t.attempts ≡ min (suc n) 20)
      × (t.next ≡ min (suc n) 21)
      × (t.reconnect_timer ≡ (if leb n 19 then some (min (1000 * 2 ^ n) 30000) else none))
      × (t.is_connected ≡ false)
      × (can_send t ≡ false)
run-outage_ends first bs =
    let end = first_failure first (outage 1 bs) ∙ run-outage 0 bs in
    let n : 0 + length bs ≡ length bs = omega arith in
    let t = run (init_fires ∷ fails 0 first ++ outage 1 bs) mounted in
    let e : t ≡ failed_until (length bs) = end ∙ ap failed_until n in
    (
      ap (λ h. h.attempts) e,
      ap (λ h. h.next) e,
      ap (λ h. h.reconnect_timer) e,
      ap (λ h. h.is_connected) e,
      ap can_send e,
    )

-- A socket that was given up while it was closing may close after its successor is open. The hook
-- then shows that it is disconnected, although the current socket is still open and sends.
pub on_close-can_send :
    (i j : ℕ) (s : Hook)
    → get i s.sockets ≡ some closing
    → s.ws ≡ some j
    → get j s.sockets ≡ some open_state
    → let t = on_close i s in (t.is_connected ≡ false) × (t.ws ≡ some j) × (can_send t ≡ true)
unfolding on_close schedule_reconnect
on_close-can_send i j s old now live = ground (arith, get-delete i j s.sockets)
