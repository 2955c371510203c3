-- ===== src/Calls/Phases.antt =====
-- What holds of a call in every run of the component, whatever comes between a promise and its
-- continuation.
use nothingapp.Common.{
  ℕ, ◌≡◌, refl, Bool, true, false, none, some, List, [], ◌∷◌, Str, is_some, arith, Option-cases,
  inl, inr,
}
use nothingapp.Common.IdMap.{get, delete}
use nothingapp.Calls.State.{
  Status, idle, outgoing, incoming, connecting, Job, start_offer, fresh_offer, Session,
}
use nothingapp.Calls.Remote.{Remote, offer, handle_call_event, finish, fail, job_done, job_failed}
use nothingapp.Calls.Machine.{Event, remote, done, failed, step, run, mounted}

abbrev pub is_setting_up : Status → Bool
is_setting_up outgoing = true
is_setting_up incoming = true
is_setting_up connecting = true
is_setting_up _ = false

-- An idle session has no call. A call that is being set up has its id and its chat. A call that
-- rings has the offer to answer. The no-answer timer of an outgoing call is the call's own.
pub record IsValid (s : Session) : Type 0 where
  pub idle_free : s.call.status ≡ idle → (s.call.call_id ≡ none) × (s.call.chat_id ≡ none)
  pub set_up :
      is_setting_up s.call.status ≡ true
      → (is_some s.call.call_id ≡ true) × (is_some s.call.chat_id ≡ true)
  pub ringing : s.call.status ≡ incoming → is_some s.incoming_sdp ≡ true
  pub own_timer :
      (chat : ℕ) (c : Str)
      → s.call.status ≡ outgoing
      → s.ring_timer ≡ some (chat, c)
      → (s.call.call_id ≡ some c) × (s.call.chat_id ≡ some chat)

mounted-IsValid : IsValid mounted
mounted-IsValid = record {
  idle_free = λ _. (refl, refl);
  set_up = λ h. cc;
  ringing = λ h. cc;
  own_timer = λ chat c h k. cc;
}

finish-IsValid : (j : Job) (sdp : Str) (s : Session) → IsValid s → IsValid (finish j sdp s)
unfolding finish
finish-IsValid (start_offer chat c) sdp s v = record {
  idle_free = ground arith;
  set_up = ground arith;
  ringing = ground arith;
  own_timer = λ chat' c' h k. ground (arith, v.own_timer chat' c');
}
finish-IsValid (fresh_offer chat c) sdp s v = record {
  idle_free = ground arith;
  set_up = ground arith;
  ringing = ground arith;
  own_timer = λ chat' c' h k. ground (arith, v.own_timer chat' c');
}
finish-IsValid j sdp s v = record {
  idle_free = ground arith;
  set_up = ground arith;
  ringing = ground arith;
  own_timer = λ chat' c' h k. ground arith;
}

fail-IsValid : (j : Job) (s : Session) → IsValid s → IsValid (fail j s)
unfolding fail
fail-IsValid (start_offer chat c) s v = record {
  idle_free = ground arith;
  set_up = ground arith;
  ringing = ground arith;
  own_timer = λ chat' c' h k. ground arith;
}
fail-IsValid j s v = record {
  idle_free = ground arith;
  set_up = ground arith;
  ringing = ground arith;
  own_timer = λ chat' c' h k. ground arith;
}

forget-IsValid : (n : ℕ) (s : Session) → IsValid s → IsValid (record s { jobs = delete n s.jobs })
forget-IsValid n s v = record {
  idle_free = v.idle_free;
  set_up = v.set_up;
  ringing = v.ringing;
  own_timer = v.own_timer;
}

job_done-IsValid : (n : ℕ) (sdp : Str) (s : Session) → IsValid s → IsValid (job_done n sdp s)
unfolding job_done
job_done-IsValid n sdp s v = elim (Option-cases (get n s.jobs)) [
  | inl gone ↦ rw (gone, job_done) v
  | inr (j, here) ↦ rw (here, job_done) (finish-IsValid j sdp _ (forget-IsValid n s v))
]

job_failed-IsValid : (n : ℕ) (s : Session) → IsValid s → IsValid (job_failed n s)
unfolding job_failed
job_failed-IsValid n s v = elim (Option-cases (get n s.jobs)) [
  | inl gone ↦ rw (gone, job_failed) v
  | inr (j, here) ↦ rw (here, job_failed) (fail-IsValid j _ (forget-IsValid n s v))
]

handle_call_event-IsValid : (r : Remote) (s : Session) → IsValid s → IsValid (handle_call_event r s)
unfolding handle_call_event
handle_call_event-IsValid (offer chat user c sdp info) s v = record {
  idle_free = ground arith;
  set_up = ground arith;
  ringing = ground arith;
  own_timer = λ chat' c' h k. ground (arith, v.own_timer chat' c');
}
handle_call_event-IsValid r s v = record {
  idle_free = ground arith;
  set_up = ground arith;
  ringing = ground arith;
  own_timer = λ chat' c' h k. ground (arith, v.own_timer chat' c');
}

step-IsValid : (e : Event) (s : Session) → IsValid s → IsValid (step e s)
unfolding step
step-IsValid (remote r) s v = handle_call_event-IsValid r s v
step-IsValid (done n sdp) s v = job_done-IsValid n sdp s v
step-IsValid (failed n) s v = job_failed-IsValid n s v
step-IsValid e s v = record {
  idle_free = ground arith;
  set_up = ground arith;
  ringing = ground arith;
  own_timer = λ chat c h k. ground (arith, v.own_timer chat c);
}

pub run-IsValid_from : (es : List Event) (s : Session) → IsValid s → IsValid (run es s)
unfolding run
run-IsValid_from [] s v = v
run-IsValid_from (e ∷ es) s v = run-IsValid_from es (step e s) (step-IsValid e s v)

-- In every run of the component: an idle session has no call; a call that is being set up, in
-- either direction, has its id and chat; a ringing call has the offer to answer; and the no-answer
-- timer of an outgoing call is the call's own.
pub run-IsValid : (es : List Event) → IsValid (run es mounted)
run-IsValid es = run-IsValid_from es mounted mounted-IsValid
