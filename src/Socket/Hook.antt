-- ===== src/Socket/Hook.antt =====
-- frontend/src/shared/hooks/useGlobalWebSocket.ts: the refs of the hook and the variables of its
-- effect as a record, its handlers, and its runs. A socket that the effect makes has a number; one
-- that is closed is no longer in `sockets`.
use nothingapp.Common.{
  ℕ, ◌+◌, ◌*◌, ◌^◌, min, leb, ◌==◌, Bool, true, false, not, ◌||◌, Option, none, some, List, [], ◌∷◌,
  if◌then◌else◌, is_some,
}
use nothingapp.Common.IdMap.{IdMap, get, put, delete}

abbrev pub max_reconnect_attempts : ℕ
max_reconnect_attempts = 20

abbrev pub base_reconnect_delay : ℕ
base_reconnect_delay = 1000

abbrev pub max_reconnect_delay : ℕ
max_reconnect_delay = 30000

-- The `readyState` of a socket that is not closed.
pub data ReadyState : Type 0 where
  connecting open_state closing : ReadyState

pub record Hook : Type 0 where
  pub is_active : Bool
  pub in_progress : Bool
  pub sockets : IdMap ReadyState
  pub next : ℕ
  pub ws : Option ℕ
  pub is_connected : Bool
  pub attempts : ℕ
  pub reconnect_timer : Option ℕ
  pub stable_timer : Bool
  pub init_timer : Bool
  pub hidden : Bool

-- OPEN or CONNECTING.
abbrev pub is_live : Option ReadyState → Bool
is_live (some connecting) = true
is_live (some open_state) = true
is_live _ = false

abbrev pub is_connecting : Option ReadyState → Bool
is_connecting (some connecting) = true
is_connecting _ = false

abbrev pub is_open : Option ReadyState → Bool
is_open (some open_state) = true
is_open _ = false

-- The state of `wsRef.current`.
abbrev pub current : Hook → Option ReadyState
current s = elim s.ws [ none ↦ none | some i ↦ get i s.sockets ]

-- `close()` on a socket that is not closed.
abbrev pub close_socket : ℕ → IdMap ReadyState → IdMap ReadyState
close_socket i m = elim (get i m) [ none ↦ m | some _ ↦ put i closing m ]

abbrev pub drop_socket : Option ℕ → Hook → Hook
drop_socket none s = s
drop_socket (some i) s = record s { sockets = close_socket i s.sockets; ws = none }

abbrev pub drop_current : Hook → Hook
drop_current s = drop_socket s.ws s

abbrev pub backoff : ℕ → ℕ
backoff n = min (base_reconnect_delay * 2 ^ n) max_reconnect_delay

unfoldable pub schedule_reconnect : Hook → Hook
schedule_reconnect s =
    if not s.is_active
    then s
    else if leb max_reconnect_attempts s.attempts
    then s
    else if s.hidden
    then s
    else record s { attempts = s.attempts + 1; reconnect_timer = some (backoff s.attempts) }

abbrev pub make_socket : Hook → Hook
make_socket s = record s {
  in_progress = true;
  sockets = (s.next, connecting) ∷ s.sockets;
  next = s.next + 1;
  ws = some s.next;
}

unfoldable pub connect : Hook → Hook
connect s =
    if not s.is_active || s.in_progress
    then s
    else if is_live (current s)
    then s
    else make_socket (drop_current s)

-- A socket that is connecting opens.
unfoldable pub on_open : ℕ → Hook → Hook
on_open i s =
    if is_connecting (get i s.sockets)
    then if s.is_active
      then record s {
        in_progress = false;
        sockets = put i open_state s.sockets;
        is_connected = true;
        stable_timer = true;
      }
      else record s { in_progress = false; sockets = put i closing s.sockets }
    else s

abbrev pub same_socket : Option ℕ → ℕ → Bool
same_socket none i = false
same_socket (some j) i = j == i

abbrev pub forget_socket : ℕ → Hook → Hook
forget_socket i s = record s {
  in_progress = false;
  sockets = delete i s.sockets;
  ws = if same_socket s.ws i then none else s.ws;
  is_connected = false;
  stable_timer = false;
}

-- A socket closes, for whatever reason.
unfoldable pub on_close : ℕ → Hook → Hook
unfolding schedule_reconnect
on_close i s = elim (get i s.sockets) [ none ↦ s | some _ ↦ schedule_reconnect (forget_socket i s) ]

unfoldable pub reconnect : Hook → Hook
unfolding connect
reconnect s = elim s.reconnect_timer [
  | none ↦ s
  | some delay ↦ connect (record s { reconnect_timer = none })
]

unfoldable pub visibility_change : Bool → Hook → Hook
unfolding connect
visibility_change hidden s =
    let t = record s { hidden = hidden } in
    if hidden || not s.is_active
    then t
    else if is_open (current t)
    then t
    else connect (record t { attempts = 0; reconnect_timer = none })

unfoldable pub unmount : Hook → Hook
unmount s =
    let t = drop_current s in
    record t {
      is_active = false;
      is_connected = false;
      reconnect_timer = none;
      stable_timer = false;
      init_timer = false;
    }

-- The test that `send` returns.
abbrev pub can_send : Hook → Bool
can_send s = is_open (current s)

-- `server_closes` is the start of a closing handshake by the other side; `failed` is `onerror`.
pub data Event : Type 0 where
  init_fires reconnect_fires stable_fires unmounted : Event
  opened server_closes failed closed : ℕ → Event
  visibility : Bool → Event

-- The first connection attempt, and the end of the time after which a connection is stable: they
-- happen if their timer runs.
unfoldable pub init_timeout : Bool → Hook → Hook
unfolding connect
init_timeout false s = s
init_timeout true s = connect (record s { init_timer = false })

unfoldable pub stable_timeout : Bool → Hook → Hook
stable_timeout false s = s
stable_timeout true s = record s { attempts = 0; stable_timer = false }

unfoldable pub step : Event → Hook → Hook
unfolding init_timeout stable_timeout on_open on_close reconnect visibility_change unmount
step init_fires s = init_timeout s.init_timer s
step reconnect_fires s = reconnect s
step stable_fires s = stable_timeout s.stable_timer s
step unmounted s = unmount s
step (opened i) s = on_open i s
step (server_closes i) s = record s { sockets = close_socket i s.sockets }
step (failed i) s = if is_some (get i s.sockets) then record s { in_progress = false } else s
step (closed i) s = on_close i s
step (visibility hidden) s = visibility_change hidden s

unfoldable pub run : List Event → Hook → Hook
run [] s = s
run (e ∷ es) s = run es (step e s)

abbrev pub mounted : Hook
mounted = record {
  is_active = true;
  in_progress = false;
  sockets = [];
  next = 0;
  ws = none;
  is_connected = false;
  attempts = 0;
  reconnect_timer = none;
  stable_timer = false;
  init_timer = true;
  hidden = false;
}
