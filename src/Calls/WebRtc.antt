-- ===== src/Calls/WebRtc.antt =====
-- frontend/src/features/calls/useWebRTC.ts: the refs of the hook as a record. The browser's peer
-- connection is seen through the ICE candidates added to it; an `async` function is cut at its
-- `await`s, and each part is one function here, so that other events can come in between.
use nothingapp.Common.{
  ℕ, suc, ◌≡◌, Bool, true, false, not, Option, none, some, List, [], ◌∷◌, ◌++◌, Str, if◌then◌else◌,
  is_some, arith,
}

-- `local_track` is the audio track of the microphone: its `enabled` flag. `flush` is the loop of
-- `flushPendingCandidates` while it waits for `addIceCandidate`: the candidates that it comes to next.
-- (A loop that outlives its call, which `cleanup` ends here, is not modelled.)
pub record Rtc : Type 0 where
  pub local_track : Option Bool
  pub added : Option (List Str)
  pub pending : List Str
  pub flush : Option (List Str)
  pub has_remote : Bool
  pub is_muted : Bool

unfoldable pub cleanup : Rtc → Rtc
cleanup s = record {
  local_track = none;
  added = none;
  pending = [];
  flush = none;
  has_remote = false;
  is_muted = false;
}

-- `startCall` and `answerCall` up to `getUserMedia`.
unfoldable pub begin_call : Rtc → Rtc
unfolding cleanup
begin_call s = cleanup s

-- From the microphone's stream to the next `await`: the new peer connection has no candidates.
unfoldable pub create_peer_connection : Rtc → Rtc
create_peer_connection s = record s { local_track = some true; added = some [] }

-- The loop from here on up to its next `await`, or its end.
unfoldable pub flush_next : List Str → Rtc → Rtc
flush_next [] s = record s { flush = none; pending = [] }
flush_next (c ∷ rest) s = elim s.added [
  | none ↦ s
  | some cs ↦ record s { added = some (cs ++ c ∷ []); flush = some rest }
]

unfoldable pub flush_pending_candidates : Rtc → Rtc
unfolding flush_next
flush_pending_candidates s =
    let t = record s { has_remote = true } in if is_some s.added then flush_next s.pending t else t

-- The candidate of the loop is added: it goes on.
unfoldable pub candidate_added : Rtc → Rtc
unfolding flush_next
candidate_added s = elim s.flush [ none ↦ s | some rest ↦ flush_next rest s ]

-- `answerCall` and `handleRemoteAnswer` once the remote description is set, up to the next `await`.
unfoldable pub set_remote : Rtc → Rtc
unfolding flush_pending_candidates
set_remote s = if is_some s.added then flush_pending_candidates s else s

unfoldable pub handle_remote_ice_candidate : Str → Rtc → Rtc
handle_remote_ice_candidate c s = elim s.added [
  | none ↦ record s { pending = s.pending ++ c ∷ [] }
  | some cs ↦
      if s.has_remote
      then record s { added = some (cs ++ c ∷ []) }
      else record s { pending = s.pending ++ c ∷ [] }
]

unfoldable pub hangup : Rtc → Rtc
unfolding cleanup
hangup s = cleanup s

-- The new state, and whether the microphone is muted.
unfoldable pub toggle_mute : Rtc → Rtc × Bool
toggle_mute s = elim s.local_track [
  | none ↦ (s, false)
  | some enabled ↦ (record s { local_track = some (not enabled); is_muted = enabled }, enabled)
]

unfoldable pub receive : List Str → Rtc → Rtc
receive [] s = s
receive (c ∷ cs) s = receive cs (handle_remote_ice_candidate c s)

-- After the remote description is set, in any order: a candidate arrives, or the loop goes on.
pub data Step : Type 0 where
  arrived : Str → Step
  added_one : Step

unfoldable pub during : List Step → Rtc → Rtc
unfolding handle_remote_ice_candidate candidate_added
during [] s = s
during (arrived c ∷ steps) s = during steps (handle_remote_ice_candidate c s)
during (added_one ∷ steps) s = during steps (candidate_added s)

unfoldable pub arrivals : List Step → List Str
arrivals [] = []
arrivals (arrived c ∷ steps) = c ∷ arrivals steps
arrivals (added_one ∷ steps) = arrivals steps

unfoldable pub additions : List Step → ℕ
additions [] = 0
additions (arrived c ∷ steps) = additions steps
additions (added_one ∷ steps) = suc (additions steps)

-- Muting twice restores the track; the flag that is shown says whether the track is disabled.
pub toggle_mute_twice :
    (s : Rtc) (enabled : Bool)
    → s.local_track ≡ some enabled
    → ((toggle_mute s).0.is_muted ≡ enabled)
      × ((toggle_mute s).0.local_track ≡ some (not enabled))
      × ((toggle_mute (toggle_mute s).0).0.local_track ≡ some enabled)
      × ((toggle_mute (toggle_mute s).0).0.is_muted ≡ not enabled)
unfolding toggle_mute
toggle_mute_twice s enabled e = ground arith
