-- ===== src/Calls/Remote.antt =====
-- frontend/src/features/calls/CallProvider.tsx: the signals of the other side, and the continuations
-- of the promises of `webrtc`.
use nothingapp.Common.{
  ℕ, false, not, ◌&&◌, Option, none, some, ◌∷◌, Str, if◌then◌else◌, is_some, or_else,
}
use nothingapp.Common.IdMap.{get, delete}
use nothingapp.Calls.State.{
  incoming, active, CallState, call_offer, call_answer, call_reject, CallerInfo, Job, start_offer,
  accept_answer, auto_answer, remote_answer, fresh_offer, Session, same_call, send, webrtc_hangup,
  start_job, reset_state, real_id, real_text, is_idle, is_connecting, is_outgoing,
}
use nothingapp.Calls.Local.{hangup}

pub data Remote : Type 0 where
  offer : ℕ → ℕ → Str → Str → Option CallerInfo → Remote
  answered : Str → Str → Remote
  ready : Str → Remote
  ice : Str → Str → Remote
  ended : Str → Remote

abbrev pub name_of : Option CallerInfo → Option Str
name_of none = none
name_of (some i) = some i.username

abbrev pub avatar_of : Option CallerInfo → Option Str
avatar_of none = none
avatar_of (some i) = i.avatar

unfoldable pub on_offer : ℕ → ℕ → Str → Str → Option CallerInfo → Session → Session
on_offer chat user c sdp info s =
    if is_connecting s.call.status && same_call s.call.call_id c && is_some (real_id s.call.chat_id)
    then start_job (auto_answer (or_else s.call.chat_id 0) c info)
        (record s { connecting_timer = none; incoming_sdp = some sdp })
    else if not (is_idle s.call.status)
    then send (call_reject chat c) s
    else record s {
      incoming_sdp = some sdp;
      call = record {
        status = incoming;
        call_id = some c;
        chat_id = some chat;
        other_user_id = some user;
        other_username = name_of info;
        other_avatar = avatar_of info;
        is_muted = false;
        call_duration = 0;
      };
    }

unfoldable pub on_ready : Str → Session → Session
on_ready c s =
    if is_outgoing s.call.status && same_call s.call.call_id c
    then elim (real_id s.call.chat_id) [ none ↦ s | some chat ↦ start_job (fresh_offer chat c) s ]
    else s

-- `handleCallEvent`; `ended` is `call_hangup` and `call_reject`.
unfoldable pub handle_call_event : Remote → Session → Session
unfolding on_offer on_ready reset_state
handle_call_event (offer chat user c sdp info) s = on_offer chat user c sdp info s
handle_call_event (answered c sdp) s =
    if is_outgoing s.call.status && same_call s.call.call_id c
    then start_job remote_answer (record s { ring_timer = none })
    else s
handle_call_event (ready c) s = on_ready c s
handle_call_event (ice c candidate) s =
    if is_some (real_text s.call.call_id) && same_call s.call.call_id c
    then record s { candidates = candidate ∷ s.candidates }
    else s
handle_call_event (ended c) s =
    if same_call s.call.call_id c then reset_state (webrtc_hangup s) else s

abbrev pub become_active : CallState → CallState
become_active c = record c { status = active }

abbrev pub or_keep : Option Str → Option Str → Option Str
or_keep none old = old
or_keep (some a) old = some a

-- The continuation of a job, given the session description that `webrtc` made.
unfoldable pub finish : Job → Str → Session → Session
finish (start_offer chat c) sdp s = send (call_offer chat c sdp) s
finish (accept_answer chat c) sdp s =
    let t = send (call_answer chat c sdp) s in
    record t { incoming_sdp = none; call = become_active (t.call) }
finish (auto_answer chat c info) sdp s =
    let t = send (call_answer chat c sdp) s in
    record t {
      incoming_sdp = none;
      call = record (t.call) {
        status = active;
        other_username = or_keep (name_of info) t.call.other_username;
        other_avatar = or_keep (avatar_of info) t.call.other_avatar;
      };
    }
finish remote_answer sdp s = record s { call = become_active (s.call) }
finish (fresh_offer chat c) sdp s = send (call_offer chat c sdp) s

-- The `catch` of a job.
unfoldable pub fail : Job → Session → Session
unfolding hangup reset_state
fail (start_offer chat c) s = reset_state (webrtc_hangup s)
fail (accept_answer chat c) s = reset_state (webrtc_hangup s)
fail (auto_answer chat c info) s = hangup s
fail remote_answer s = hangup s
fail (fresh_offer chat c) s = hangup s

unfoldable pub job_done : ℕ → Str → Session → Session
unfolding finish
job_done n sdp s = elim (get n s.jobs) [
  | none ↦ s
  | some j ↦ finish j sdp (record s { jobs = delete n s.jobs })
]

unfoldable pub job_failed : ℕ → Session → Session
unfolding fail
job_failed n s = elim (get n s.jobs) [
  | none ↦ s
  | some j ↦ fail j (record s { jobs = delete n s.jobs })
]
