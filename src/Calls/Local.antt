-- ===== src/Calls/Local.antt =====
-- frontend/src/features/calls/CallProvider.tsx: what the user, the timers and the page do to a call.
use nothingapp.Common.{
  ℕ, ◌+◌, Bool, true, false, not, ◌&&◌, ◌||◌, Option, none, some, Str, if◌then◌else◌, is_some,
}
use nothingapp.Calls.State.{
  outgoing, connecting, call_hangup, call_reject, call_missed, call_ready, call_ice, real_id,
  real_text, PendingCall, start_offer, accept_answer, Session, same_call, send, webrtc_hangup,
  start_job, reset_state, is_idle, is_connecting, is_active, is_outgoing, is_incoming,
}

-- What the browser's unload and `hangup` send first.
abbrev pub announce_hangup : Session → Session
announce_hangup s = if is_idle s.call.status then s else elim (real_text s.call.call_id) [
  | none ↦ s
  | some c ↦ elim (real_id s.call.chat_id) [ none ↦ s | some chat ↦ send (call_hangup chat c) s ]
]

unfoldable pub before_unload : Session → Session
before_unload s = announce_hangup s

unfoldable pub hangup : Session → Session
unfolding reset_state
hangup s = reset_state (webrtc_hangup (announce_hangup s))

-- The effect on `webrtc.connectionState`, when it is 'failed' or 'disconnected'.
unfoldable pub connection_lost : Session → Session
unfolding hangup
connection_lost s = if is_active s.call.status then hangup s else s

-- The interval of the duration, which runs while the status is 'active'.
unfoldable pub tick : Session → Session
tick s =
    if is_active s.call.status
    then record s { call = record (s.call) { call_duration = s.call.call_duration + 1 } }
    else s

unfoldable pub flush_pending_ready : Session → Session
flush_pending_ready s = elim s.pending_ready [
  | none ↦ s
  | some pc ↦
      if not s.can_send
      then s
      else if not (is_idle s.call.status)
      then record s { pending_ready = none }
      else send (call_ready pc.chat_id pc.call_id) (record s {
        pending_ready = none;
        call = record {
          status = connecting;
          call_id = some pc.call_id;
          chat_id = some pc.chat_id;
          other_user_id = some pc.caller_id;
          other_username = none;
          other_avatar = none;
          is_muted = false;
          call_duration = 0;
        };
        connecting_timer = some pc.call_id;
      })
]

unfoldable pub connecting_timeout : Session → Session
unfolding reset_state
connecting_timeout s = elim s.connecting_timer [
  | none ↦ s
  | some c ↦
      if is_connecting s.call.status && same_call s.call.call_id c
      then reset_state s
      else record s { connecting_timer = none }
]

unfoldable pub register_send : Bool → Session → Session
unfolding flush_pending_ready
register_send present s =
    if present
    then flush_pending_ready (record s { can_send = true })
    else record s { can_send = false }

unfoldable pub doorbell : PendingCall → Session → Session
unfolding flush_pending_ready
doorbell pc s = flush_pending_ready (record s { pending_ready = some pc })

-- `call_id` is the fresh `crypto.randomUUID()`.
unfoldable pub initiate_call : ℕ → ℕ → Str → Option Str → Str → Session → Session
initiate_call chat other name avatar call_id s =
    if not (is_idle s.call.status)
    then s
    else start_job (start_offer chat call_id) (record s {
      call = record {
        status = outgoing;
        call_id = some call_id;
        chat_id = some chat;
        other_user_id = some other;
        other_username = some name;
        other_avatar = avatar;
        is_muted = false;
        call_duration = 0;
      };
      ring_timer = some (chat, call_id);
    })

unfoldable pub ring_timeout : Session → Session
unfolding reset_state
ring_timeout s = elim s.ring_timer [
  | none ↦ s
  | some (chat, c) ↦
      if (is_outgoing s.call.status || is_connecting s.call.status) && same_call s.call.call_id c
      then reset_state (webrtc_hangup (send (call_hangup chat c) (send (call_missed chat c) s)))
      else record s { ring_timer = none }
]

unfoldable pub accept_call : Session → Session
accept_call s =
    if is_incoming s.call.status && is_some (real_text s.incoming_sdp)
    then elim (real_id s.call.chat_id) [
      | none ↦ s
      | some chat ↦ elim (real_text s.call.call_id) [
        | none ↦ s
        | some c ↦ start_job (accept_answer chat c) s
      ]
    ]
    else s

unfoldable pub reject_call : Session → Session
unfolding reset_state
reject_call s =
    if is_incoming s.call.status
    then elim (real_id s.call.chat_id) [
      | none ↦ s
      | some chat ↦ elim (real_text s.call.call_id) [
        | none ↦ s
        | some c ↦ reset_state (webrtc_hangup (send (call_reject chat c) s))
      ]
    ]
    else s

unfoldable pub toggle_mute : Session → Session
toggle_mute s = record s { call = record (s.call) { is_muted = not s.call.is_muted } }

-- `sendIceCandidate`: the peer connection of a call found a candidate.
unfoldable pub send_ice_candidate : ℕ → Str → Str → Session → Session
send_ice_candidate chat c candidate s = send (call_ice chat c candidate) s
