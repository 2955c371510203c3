-- ===== src/Calls/Ownership.antt =====
-- Which call a signal, a timer or a continuation acts on.
use nothingapp.Common.{
  ℕ, ◌≡◌, ◌≢◌, refl, true, false, Option, none, some, List, ◌∷◌, Str, arith, str_eq_iff,
  str_eq_refl, is_empty, ◌⊎◌, if◌then◌else◌,
}
use nothingapp.Common.IdMap.{get}
use nothingapp.Calls.State.{
  idle, outgoing, active, connecting, PendingCall, accept_answer, Session, CallerInfo, call_hangup,
  call_reject, call_missed, call_ready, same_call, initial_state,
}
use nothingapp.Calls.Local.{hangup, ring_timeout, register_send, doorbell}
use nothingapp.Calls.Remote.{
  Remote, offer, answered, ready, ice, ended, handle_call_event, job_done,
}
use nothingapp.Calls.Machine.{Event, run, mounted}
use nothingapp.Calls.Phases.{run-IsValid}

-- The call that a signal names; an offer proposes one of its own.
abbrev pub signal_call : Remote → Option Str
signal_call (offer chat user c sdp info) = none
signal_call (answered c sdp) = some c
signal_call (ready c) = some c
signal_call (ice c candidate) = some c
signal_call (ended c) = some c

-- A signal that names another call than the session's changes nothing.
pub foreign_signal :
    (r : Remote) (c : Str) (s : Session)
    → signal_call r ≡ some c
    → s.call.call_id ≢ some c
    → handle_call_event r s ≡ s
unfolding handle_call_event
foreign_signal r c s named other =
    let differs : same_call s.call.call_id c ≡ false = different s.call.call_id c other in
    ground arith
  where
    different : (o : Option Str) (c : Str) → o ≢ some c → same_call o c ≡ false
    different none c h = refl
    different (some d) c h = ground (arith, str_eq_iff d c)

-- A session that is busy answers an offer by a rejection of the offered call and changes nothing
-- else, unless it waits for the offer of this very call.
pub busy_offer :
    (chat user : ℕ) (c sdp : Str) (info : Option CallerInfo) (s : Session)
    → s.call.status ≢ idle
    → (s.call.status ≢ connecting) ⊎ (same_call s.call.call_id c ≡ false)
    → handle_call_event (offer chat user c sdp info) s
      ≡ (if s.can_send then record s { sent = call_reject chat c ∷ s.sent } else s)
unfolding handle_call_event
busy_offer chat user c sdp info s busy other = ground arith

-- When the no-answer timer of an outgoing call fires, in any run: the session is idle again with no
-- call and no timer, and, if the socket is there, exactly a missed call and a hangup are sent, both
-- for this call.
pub ring_timeout_outgoing :
    (es : List Event) (chat : ℕ) (c : Str)
    → (run es mounted).call.status ≡ outgoing
    → (run es mounted).ring_timer ≡ some (chat, c)
    → let s = run es mounted in
      let t = ring_timeout s in
      (s.call.call_id ≡ some c)
      × (t.call ≡ initial_state)
      × (t.ring_timer ≡ none)
      × (t.connecting_timer ≡ none)
      × (t.sent ≡ (if s.can_send then call_hangup chat c ∷ call_missed chat c ∷ s.sent else s.sent))
unfolding ring_timeout
ring_timeout_outgoing es chat c out armed =
    let own = ((run-IsValid es).own_timer chat c out armed).0 in ground (arith, own, str_eq_refl c)

-- The no-answer timer never touches another call, nor an answered one: it changes no call but an
-- outgoing or connecting one that has the id the timer was started for, and it sends nothing then.
pub ring_timeout_foreign :
    (s : Session) (chat : ℕ) (c : Str)
    → s.ring_timer ≡ some (chat, c)
    → (s.call.status ≡ active) ⊎ (same_call s.call.call_id c ≡ false)
    → ((ring_timeout s).call ≡ s.call) × ((ring_timeout s).sent ≡ s.sent)
unfolding ring_timeout
ring_timeout_foreign s chat c armed other = ground arith

-- Hanging up ends any call that is not idle and has an id, not empty, and a chat, not 0: the
-- session is idle with no call and no timer, and the other side is told when the socket is there.
pub hangup_ends :
    (s : Session) (chat : ℕ) (c : Str)
    → s.call.status ≢ idle
    → s.call.call_id ≡ some c
    → s.call.chat_id ≡ some chat
    → is_empty c ≡ false
    → chat ≢ 0
    → ((hangup s).call ≡ initial_state)
      × ((hangup s).ring_timer ≡ none)
      × ((hangup s).connecting_timer ≡ none)
      × ((hangup s).sent ≡ (if s.can_send then call_hangup chat c ∷ s.sent else s.sent))
unfolding hangup
hangup_ends s chat c busy id place full real = ground arith

-- A doorbell that is tapped before the socket is there rings when it connects: the session is idle
-- and without a socket; once the socket is registered it waits for the doorbell's call and has sent
-- one `call_ready`; losing and regaining the socket sends no second one.
pub doorbell_once :
    (s : Session) (pc : PendingCall)
    → s.call.status ≡ idle
    → s.can_send ≡ false
    → let waiting = doorbell pc s in
      let t = register_send true waiting in
      (waiting.call ≡ s.call)
      × (waiting.sent ≡ s.sent)
      × (t.call.status ≡ connecting)
      × (t.call.call_id ≡ some pc.call_id)
      × (t.sent ≡ call_ready pc.chat_id pc.call_id ∷ s.sent)
      × ((register_send true (register_send false t)).sent ≡ t.sent)
unfolding doorbell register_send
doorbell_once s pc rest quiet = ground arith

-- While the microphone is being opened for an accepted call the caller may hang up. The session is
-- then reset, and the continuation still makes it active, with no call, and no hangup or rejection
-- of the other side changes anything any more.
pub ended-accept_phantom :
    (s : Session) (n chat : ℕ) (c sdp d : Str)
    → s.call.call_id ≡ some c
    → get n s.jobs ≡ some (accept_answer chat c)
    → let t = job_done n sdp (handle_call_event (ended c) s) in
      (t.call.status ≡ active) × (t.call.call_id ≡ none) × (handle_call_event (ended d) t ≡ t)
unfolding handle_call_event job_done
ended-accept_phantom s n chat c sdp d id job =
    (ground (arith, str_eq_refl c), ground (arith, str_eq_refl c), ground (arith, str_eq_refl c))
