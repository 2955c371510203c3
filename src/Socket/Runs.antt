-- ===== src/Socket/Runs.antt =====
-- What holds of the connection in every run.
use nothingapp.Common.{
  ℕ, ◌≡◌, ◌||◌, not, ◌≤◌, refl, Bool, true, false, none, List, [], ◌∷◌, arith, is_some, Bool-cases,
  Option-cases, inl, inr,
}
use nothingapp.Common.IdMap.{get}
use nothingapp.Socket.Hook.{
  init_timeout, stable_timeout, is_open, Hook, Event, run, step, mounted, reconnect,
  visibility_change, unmount, init_fires, reconnect_fires, stable_fires, unmounted, opened,
  server_closes, failed, closed, visibility, close_socket, current,
}
use nothingapp.Socket.Live.{
  IsValid, mounted-IsValid, get-close_socket, fresh-close_socket, drop_socket-IsValid,
  drop_socket-ws, connect-IsValid, on_open-IsValid, on_close-IsValid,
}

-- The fields that these events set matter to no other part of the invariant.
idle_fields-IsValid :
    (s : Hook) (in_progress init_timer hidden stable : Bool) (attempts : ℕ)
    → attempts ≤ s.attempts
    → (s.is_active ≡ false → init_timer ≡ false)
    → IsValid s
    → IsValid (record s {
      in_progress = in_progress;
      init_timer = init_timer;
      hidden = hidden;
      stable_timer = stable;
      attempts = attempts;
    })
idle_fields-IsValid s in_progress init_timer hidden stable attempts less off v = record {
  bounded = let b = v.bounded in omega arith;
  delay = v.delay;
  one = v.one;
  cleaned = λ h. ground (arith, v.cleaned h, off h);
  fresh = v.fresh;
}

no_timer-IsValid : (s : Hook) → IsValid s → IsValid (record s { reconnect_timer = none })
no_timer-IsValid s v = record {
  bounded = v.bounded;
  delay = λ d h. cc;
  one = v.one;
  cleaned = λ h. ground (arith, v.cleaned h);
  fresh = v.fresh;
}

unmount-IsValid : (s : Hook) → IsValid s → IsValid (unmount s)
unfolding unmount
unmount-IsValid s v =
    let d = drop_socket-IsValid s v s.ws refl in
    let free = drop_socket-ws s v s.ws refl in
    record {
      bounded = d.bounded;
      delay = λ n h. cc;
      one = d.one;
      cleaned = λ h. (free, refl, refl, refl);
      fresh = d.fresh;
    }

closing-IsValid :
    (i : ℕ) (s : Hook) → IsValid s → IsValid (record s { sockets = close_socket i s.sockets })
closing-IsValid i s v = record {
  bounded = v.bounded;
  delay = v.delay;
  one = λ j h. ground (arith, get-close_socket i j s.sockets h, v.one j);
  cleaned = v.cleaned;
  fresh = λ j h. fresh-close_socket i j s.sockets (v.fresh j h);
}

visibility_change-IsValid :
    (hidden : Bool) (s : Hook) → IsValid s → IsValid (visibility_change hidden s)
unfolding visibility_change
visibility_change-IsValid hidden s v =
    let t = record s { hidden = hidden } in
    let w : IsValid t =
      idle_fields-IsValid s s.in_progress s.init_timer hidden s.stable_timer s.attempts
        (omega arith) (λ h. (v.cleaned h).3) v in
    elim (Bool-cases (hidden || not s.is_active)) [
      | inl away ↦ rw away w
      | inr back ↦ elim (Bool-cases (is_open (current t))) [
        | inl open_now ↦ rw (back, open_now) w
        | inr lost ↦
            rw (back, lost)
              (connect-IsValid (record t { attempts = 0; reconnect_timer = none })
                (no_timer-IsValid (record t { attempts = 0 })
                  (idle_fields-IsValid t t.in_progress t.init_timer t.hidden t.stable_timer 0
                    (omega arith) (λ h. (w.cleaned h).3) w)))
      ]
    ]

init_timeout-IsValid : (on : Bool) (s : Hook) → IsValid s → IsValid (init_timeout on s)
unfolding init_timeout
init_timeout-IsValid false s v = v
init_timeout-IsValid true s v =
    connect-IsValid (record s { init_timer = false })
      (idle_fields-IsValid s s.in_progress false s.hidden s.stable_timer s.attempts (omega arith)
        (λ h. refl) v)

stable_timeout-IsValid : (on : Bool) (s : Hook) → IsValid s → IsValid (stable_timeout on s)
unfolding stable_timeout
stable_timeout-IsValid false s v = v
stable_timeout-IsValid true s v =
    idle_fields-IsValid s s.in_progress s.init_timer s.hidden false 0 (omega arith)
      (λ h. (v.cleaned h).3) v

step-IsValid : (e : Event) (s : Hook) → IsValid s → IsValid (step e s)
unfolding step
step-IsValid init_fires s v = init_timeout-IsValid s.init_timer s v
step-IsValid reconnect_fires s v =
    unfold reconnect in
    elim (Option-cases s.reconnect_timer) [
      | inl off ↦ rw (off, reconnect) v
      | inr (d, on) ↦ rw (on, reconnect) (connect-IsValid _ (no_timer-IsValid s v))
    ]
step-IsValid stable_fires s v = stable_timeout-IsValid s.stable_timer s v
step-IsValid unmounted s v = unmount-IsValid s v
step-IsValid (opened i) s v = on_open-IsValid i s v
step-IsValid (server_closes i) s v = closing-IsValid i s v
step-IsValid (failed i) s v = elim (Bool-cases (is_some (get i s.sockets))) [
  | inr gone ↦ rw gone v
  | inl there ↦ rw there (
      idle_fields-IsValid s false s.init_timer s.hidden s.stable_timer s.attempts (omega arith)
        (λ h. (v.cleaned h).3) v)
]
step-IsValid (closed i) s v = on_close-IsValid i s v
step-IsValid (visibility hidden) s v = visibility_change-IsValid hidden s v

run-IsValid_from : (es : List Event) (s : Hook) → IsValid s → IsValid (run es s)
unfolding run
run-IsValid_from [] s v = v
run-IsValid_from (e ∷ es) s v = run-IsValid_from es (step e s) (step-IsValid e s v)

-- In every run of the hook's effect: at most 20 attempts are counted; a pending retry waits at least
-- a second and at most thirty; a socket that is opening or open is the current one, so there is at
-- most one; and after the cleanup there is none, nor a timer that would make one.
pub run-IsValid_socket : (es : List Event) → IsValid (run es mounted)
run-IsValid_socket es = run-IsValid_from es mounted mounted-IsValid
