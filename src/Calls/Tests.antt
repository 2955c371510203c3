-- ===== src/Calls/Tests.antt =====
-- The theorems on frontend/src/features/calls at concrete runs.
use nothingapp.Common.{
  arith, ◌≡◌, refl, true, false, none, some, List, [], ◌∷◌, ◌++◌, Str, codes, if◌then◌else◌,
}
use nothingapp.Common.IdMap.{get}
use nothingapp.Calls.WebRtc.{
  Rtc, receive, begin_call, create_peer_connection, set_remote, during, arrived, added_one,
  arrivals, additions, flush_pending_candidates, flush_next, candidate_added,
  handle_remote_ice_candidate,
}
use nothingapp.Calls.Candidates.{call_candidates, Merge}
use nothingapp.Calls.State.{Session, PendingCall, active, initial_state, call_hangup, call_missed}
use nothingapp.Calls.Local.{ring_timeout}
use nothingapp.Calls.Remote.{offer, ended, handle_call_event, job_done}
use nothingapp.Calls.Machine.{Event, initiate, registered, remote, accept, step, run, mounted}
use nothingapp.Calls.Phases.{IsValid, run-IsValid}
use nothingapp.Calls.Ownership.{ring_timeout_outgoing, ended-accept_phantom}

abbrev c1 : Str
c1 = 1 ∷ []

abbrev c2 : Str
c2 = 2 ∷ []

abbrev calling : List Event
calling = registered true ∷ initiate 7 2 (codes "Bob") none c1 ∷ []

abbrev accepting : List Event
accepting = registered true ∷ remote (offer 7 2 c1 (codes "v=0") none) ∷ accept ∷ []

run-IsValid_example : IsValid (run calling mounted)
run-IsValid_example = run-IsValid calling

ring_timeout_outgoing_example :
    let s = run calling mounted in
    let t = ring_timeout s in
    (s.call.call_id ≡ some c1)
    × (t.call ≡ initial_state)
    × (t.ring_timer ≡ none)
    × (t.connecting_timer ≡ none)
    × (t.sent ≡ (if s.can_send then call_hangup 7 c1 ∷ call_missed 7 c1 ∷ s.sent else s.sent))
unfolding run step
ring_timeout_outgoing_example = ring_timeout_outgoing calling 7 c1 refl refl

abbrev recalled : Session
recalled = record (run calling mounted) { ring_timer = some (7, c2) }

abbrev tapped : PendingCall
tapped = record { call_id = c1; chat_id = 7; caller_id = 2 }

ended-accept_phantom_example :
    let t = job_done 0 (codes "v=1") (handle_call_event (ended c1) (run accepting mounted)) in
    (t.call.status ≡ active) × (t.call.call_id ≡ none) × (handle_call_event (ended c2) t ≡ t)
unfolding run step get
ended-accept_phantom_example =
    ended-accept_phantom (run accepting mounted) 0 7 c1 (codes "v=1") c2 refl refl

abbrev fresh_rtc : Rtc
fresh_rtc = record {
  local_track = some true;
  added = none;
  pending = [];
  flush = none;
  has_remote = false;
  is_muted = false;
}

call_candidates_example :
    let t = during (arrived c2 ∷ added_one ∷ []) (
      set_remote
        (receive [] (create_peer_connection (receive (c1 ∷ []) (begin_call fresh_rtc))))) in
    (ds : List Str) × (t.added ≡ some ds) × Merge ((c1 ∷ []) ++ []) (c2 ∷ []) ds × (t.pending ≡ [])
unfolding arrivals additions
call_candidates_example =
    call_candidates (c1 ∷ []) [] (arrived c2 ∷ added_one ∷ []) fresh_rtc (omega arith)

-- The candidate that comes while the first of two buffered ones is added overtakes the second.
overtaken :
    (during
      (arrived c2 ∷ added_one ∷ added_one ∷ [])
      (set_remote (receive (c1 ∷ c1 ∷ []) (create_peer_connection (begin_call fresh_rtc))))).added
    ≡ some (c1 ∷ c2 ∷ c1 ∷ [])
unfolding during receive begin_call create_peer_connection set_remote flush_pending_candidates
    handle_remote_ice_candidate flush_next candidate_added
overtaken = refl
