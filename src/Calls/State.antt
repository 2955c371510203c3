-- ===== src/Calls/State.antt =====
-- frontend/src/features/calls/CallProvider.tsx: the component's state and refs as a record. `sent`
-- logs what is handed to the registered send function, `hangups` counts the calls of
-- `webrtc.hangup`. A promise of `webrtc` is a job: a handler starts it, and its continuation runs
-- later, with whatever came in between. The ref of the state follows the state at once. The ids and
-- texts of calls are not 0 and not empty, as the server makes them.
use nothingapp.Common.{
  ℕ, ◌+◌, ◌==◌, is_empty, Bool, true, false, Option, none, some, List, ◌∷◌, Str, str_eq,
  if◌then◌else◌,
}
use nothingapp.Common.IdMap.{IdMap}

pub data Status : Type 0 where
  idle outgoing incoming active connecting : Status

pub record CallState : Type 0 where
  pub status : Status
  pub call_id : Option Str
  pub chat_id : Option ℕ
  pub other_user_id : Option ℕ
  pub other_username : Option Str
  pub other_avatar : Option Str
  pub is_muted : Bool
  pub call_duration : ℕ

abbrev pub initial_state : CallState
initial_state = record {
  status = idle;
  call_id = none;
  chat_id = none;
  other_user_id = none;
  other_username = none;
  other_avatar = none;
  is_muted = false;
  call_duration = 0;
}

-- The messages to the server, with their chat and call.
pub data Action : Type 0 where
  call_offer call_answer : ℕ → Str → Str → Action
  call_hangup call_reject call_missed call_ready : ℕ → Str → Action
  call_ice : ℕ → Str → Str → Action

pub record PendingCall : Type 0 where
  pub call_id : Str
  pub chat_id : ℕ
  pub caller_id : ℕ

pub record CallerInfo : Type 0 where
  pub username : Str
  pub avatar : Option Str

pub data Job : Type 0 where
  start_offer : ℕ → Str → Job
  accept_answer : ℕ → Str → Job
  auto_answer : ℕ → Str → Option CallerInfo → Job
  remote_answer : Job
  fresh_offer : ℕ → Str → Job

pub record Session : Type 0 where
  pub call : CallState
  pub can_send : Bool
  pub incoming_sdp : Option Str
  pub ring_timer : Option (ℕ × Str)
  pub connecting_timer : Option Str
  pub pending_ready : Option PendingCall
  pub jobs : IdMap Job
  pub next_job : ℕ
  pub sent : List Action
  pub candidates : List Str
  pub hangups : ℕ

-- The tests `state.chatId` and `state.callId`: of the values that are not null, 0 and the empty
-- string fail them.
abbrev pub real_id : Option ℕ → Option ℕ
real_id none = none
real_id (some n) = if n == 0 then none else some n

abbrev pub real_text : Option Str → Option Str
real_text none = none
real_text (some t) = if is_empty t then none else some t

abbrev pub same_call : Option Str → Str → Bool
same_call none c = false
same_call (some d) c = str_eq d c

abbrev pub send : Action → Session → Session
send a s = if s.can_send then record s { sent = a ∷ s.sent } else s

abbrev pub webrtc_hangup : Session → Session
webrtc_hangup s = record s { hangups = s.hangups + 1 }

abbrev pub start_job : Job → Session → Session
start_job j s = record s { jobs = (s.next_job, j) ∷ s.jobs; next_job = s.next_job + 1 }

unfoldable pub reset_state : Session → Session
reset_state s = record s {
  ring_timer = none;
  connecting_timer = none;
  call = initial_state;
  incoming_sdp = none;
}

abbrev pub is_idle : Status → Bool
is_idle idle = true
is_idle _ = false

abbrev pub is_connecting : Status → Bool
is_connecting connecting = true
is_connecting _ = false

abbrev pub is_active : Status → Bool
is_active active = true
is_active _ = false

abbrev pub is_outgoing : Status → Bool
is_outgoing outgoing = true
is_outgoing _ = false

abbrev pub is_incoming : Status → Bool
is_incoming incoming = true
is_incoming _ = false
