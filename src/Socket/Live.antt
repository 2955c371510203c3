-- ===== src/Socket/Live.antt =====
-- What holds of the connection, and that connecting, opening and closing keep it.
use nothingapp.Common.{
  ℕ, zero, suc, ◌^◌, ◌==◌, ◌≡◌, ◌∙◌, ◌||◌, not, ◌≤◌, refl, true, false, Option, none, some, arith,
  Bool-cases, Option-cases, inl, inr,
}
use nothingapp.Common.IdMap.{IdMap, get, get-put, get-delete}
use nothingapp.Socket.Hook.{
  Hook, ReadyState, closing, is_live, max_reconnect_attempts, base_reconnect_delay,
  max_reconnect_delay, mounted, schedule_reconnect, connect, on_open, on_close, make_socket,
  drop_current, drop_socket, forget_socket, open_state, close_socket, current, backoff,
}

-- The retries are bounded, a retry waits a bounded time, a live socket is the current one, and the
-- cleanup leaves none and no timer.
pub record IsValid (s : Hook) : Type 0 where
  pub bounded : s.attempts ≤ max_reconnect_attempts
  pub delay :
      (d : ℕ) → s.reconnect_timer ≡ some d → (base_reconnect_delay ≤ d) × (d ≤ max_reconnect_delay)
  pub one : (i : ℕ) → is_live (get i s.sockets) ≡ true → s.ws ≡ some i
  pub cleaned :
      s.is_active ≡ false
      → (s.ws ≡ none)
        × (s.is_connected ≡ false)
        × (s.reconnect_timer ≡ none)
        × (s.init_timer ≡ false)
  pub fresh : (i : ℕ) → s.next ≤ i → get i s.sockets ≡ none

pub mounted-IsValid : IsValid mounted
unfolding get
mounted-IsValid = record {
  bounded = omega arith;
  delay = λ d h. cc;
  one = λ i h. cc;
  cleaned = λ h. cc;
  fresh = λ i h. refl;
}

two_pow_positive : (n : ℕ) → 1 ≤ 2 ^ n
two_pow_positive zero = omega arith
two_pow_positive (suc n) = let h = two_pow_positive n in omega arith

backoff_bounds : (n : ℕ) → (base_reconnect_delay ≤ backoff n) × (backoff n ≤ max_reconnect_delay)
backoff_bounds n = let h = two_pow_positive n in (omega arith, omega arith)

pub get-close_socket :
    (i j : ℕ) (m : IdMap ReadyState)
    → is_live (get j (close_socket i m)) ≡ true
    → ((i == j) ≡ false) × (get j (close_socket i m) ≡ get j m)
get-close_socket i j m h = elim (Option-cases (get i m)) [
  | inl gone ↦ ground (arith, get-put i j closing m)
  | inr (st, here) ↦ ground (arith, get-put i j closing m)
]

pub fresh-close_socket :
    (i j : ℕ) (m : IdMap ReadyState) → get j m ≡ none → get j (close_socket i m) ≡ none
fresh-close_socket i j m h = elim (Option-cases (get i m)) [
  | inl gone ↦ ground arith
  | inr (st, here) ↦ ground (arith, get-put i j closing m)
]

module _ (s : Hook) (v : IsValid s) where
  schedule_reconnect-IsValid : IsValid (schedule_reconnect s)
  unfolding schedule_reconnect
  schedule_reconnect-IsValid = record {
    bounded = ground (arith, v.bounded);
    delay = λ d h. ground (arith, v.delay d, backoff_bounds s.attempts);
    one = λ i h. ground (arith, v.one i);
    cleaned = λ h. ground (arith, v.cleaned);
    fresh = λ i h. ground (arith, v.fresh i);
  }

  pub drop_socket-IsValid : (w : Option ℕ) → s.ws ≡ w → IsValid (drop_socket w s)
  drop_socket-IsValid none e = v
  drop_socket-IsValid (some i) e = record {
    bounded = v.bounded;
    delay = v.delay;
    one = λ j h. ground (arith, get-close_socket i j s.sockets h, v.one j);
    cleaned = λ h. ground (arith, v.cleaned);
    fresh = λ j h. fresh-close_socket i j s.sockets (v.fresh j h);
  }

  pub drop_socket-ws : (w : Option ℕ) → s.ws ≡ w → (drop_socket w s).ws ≡ none
  drop_socket-ws none e = e
  drop_socket-ws (some i) e = refl

make_socket-IsValid :
    (s : Hook) → s.is_active ≡ true → s.ws ≡ none → IsValid s → IsValid (make_socket s)
unfolding get
make_socket-IsValid s alive free v = record {
  bounded = v.bounded;
  delay = v.delay;
  one = λ i h. ground (arith, v.one i);
  cleaned = λ h. ground arith;
  fresh = λ i h. ground (arith, v.fresh i);
}

drop_socket-is_active : (w : Option ℕ) (s : Hook) → (drop_socket w s).is_active ≡ s.is_active
drop_socket-is_active none s = refl
drop_socket-is_active (some i) s = refl

pub connect-IsValid : (s : Hook) → IsValid s → IsValid (connect s)
unfolding connect
connect-IsValid s v = elim (Bool-cases (not s.is_active || s.in_progress)) [
  | inl busy ↦ rw busy v
  | inr ready ↦ elim (Bool-cases (is_live (current s))) [
    | inl live ↦ rw (ready, live) v
    | inr dead ↦
        rw (ready, dead)
          (make_socket-IsValid (drop_current s) (drop_socket-is_active s.ws s ∙ ground arith)
            (drop_socket-ws s v s.ws refl) (drop_socket-IsValid s v s.ws refl))
  ]
]

pub on_open-IsValid : (i : ℕ) (s : Hook) → IsValid s → IsValid (on_open i s)
unfolding on_open
on_open-IsValid i s v = elim (Option-cases (get i s.sockets)) [
  | inl gone ↦ rw gone v
  | inr (st, here) ↦ record {
    bounded = ground (arith, v.bounded);
    delay = λ d h. ground (arith, v.delay d);
    one = λ j h.
        ground (
          arith,
          get-put i j open_state s.sockets,
          get-put i j closing s.sockets,
          v.one j,
          v.one i,
        );
    cleaned = λ h. ground (arith, v.cleaned);
    fresh = λ j h. ground (
      arith,
      get-put i j open_state s.sockets,
      get-put i j closing s.sockets,
      v.fresh j,
      v.fresh i,
    );
  }
]

pub on_close-IsValid : (i : ℕ) (s : Hook) → IsValid s → IsValid (on_close i s)
unfolding on_close
on_close-IsValid i s v = elim (Option-cases (get i s.sockets)) [
  | inl gone ↦ rw (gone, on_close) v
  | inr (st, here) ↦
      rw (here, on_close)
        (schedule_reconnect-IsValid (forget_socket i s) (record {
          bounded = v.bounded;
          delay = v.delay;
          one = λ j h. ground (arith, get-delete i j s.sockets, v.one j);
          cleaned = λ h. ground (arith, v.cleaned);
          fresh = λ j h. ground (arith, get-delete i j s.sockets, v.fresh j);
        }))
]
