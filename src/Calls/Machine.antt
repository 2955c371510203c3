-- ===== src/Calls/Machine.antt =====
-- frontend/src/features/calls/CallProvider.tsx: the handlers as one step function over the events of
-- the component, and its runs.
use nothingapp.Common.{ℕ, Bool, false, Option, none, List, [], ◌∷◌, Str}
use nothingapp.Calls.State.{PendingCall, Session, initial_state}
use nothingapp.Calls.Local.{
  before_unload, hangup, connection_lost, tick, connecting_timeout, ring_timeout, accept_call,
  reject_call, toggle_mute, register_send, doorbell, initiate_call, send_ice_candidate,
}
use nothingapp.Calls.Remote.{Remote, handle_call_event, job_done, job_failed}

pub data Event : Type 0 where
  unload hang_up lost second connecting_timed_out ring_timed_out accept reject mute : Event
  registered : Bool → Event
  rung : PendingCall → Event
  initiate : ℕ → ℕ → Str → Option Str → Str → Event
  remote : Remote → Event
  done : ℕ → Str → Event
  failed : ℕ → Event
  gathered : ℕ → Str → Str → Event

unfoldable pub step : Event → Session → Session
unfolding before_unload hangup connection_lost tick connecting_timeout ring_timeout accept_call
    reject_call toggle_mute register_send doorbell initiate_call send_ice_candidate
    handle_call_event job_done job_failed
step unload s = before_unload s
step hang_up s = hangup s
step lost s = connection_lost s
step second s = tick s
step connecting_timed_out s = connecting_timeout s
step ring_timed_out s = ring_timeout s
step accept s = accept_call s
step reject s = reject_call s
step mute s = toggle_mute s
step (registered present) s = register_send present s
step (rung pc) s = doorbell pc s
step (initiate chat other name avatar c) s = initiate_call chat other name avatar c s
step (remote r) s = handle_call_event r s
step (done n sdp) s = job_done n sdp s
step (failed n) s = job_failed n s
step (gathered chat c candidate) s = send_ice_candidate chat c candidate s

unfoldable pub run : List Event → Session → Session
run [] s = s
run (e ∷ es) s = run es (step e s)

abbrev pub mounted : Session
mounted = record {
  call = initial_state;
  can_send = false;
  incoming_sdp = none;
  ring_timer = none;
  connecting_timer = none;
  pending_ready = none;
  jobs = [];
  next_job = 0;
  sent = [];
  candidates = [];
  hangups = 0;
}
