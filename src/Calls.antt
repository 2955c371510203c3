-- ===== src/Calls.antt =====
-- frontend/src/features/calls: the media connection (`WebRtc`), and the call of CallProvider.tsx, from
-- its state to the proofs over all runs.
pub mod WebRtc
pub mod Candidates
pub mod State
pub mod Local
pub mod Remote
pub mod Machine
pub mod Phases
pub mod Ownership
mod Tests
