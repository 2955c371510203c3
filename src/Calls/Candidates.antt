-- ===== src/Calls/Candidates.antt =====
-- The ICE candidates of a call in useWebRTC.ts: which of them reach the connection, and in what order.
use nothingapp.Common.{
  ℕ, suc, ◌≤◌, ◌-◌, length, Option-cases, inl, inr, ◌≡◌, refl, true, false, Option, none, some,
  List, [], ◌∷◌, ◌++◌, Str, ap, sym, ◌∙◌, arith,
}
use mathlib.Core.Path.{subst}
use mathlib.Core.List.{append_assoc, append-nil}
use nothingapp.Calls.WebRtc.{
  Rtc, begin_call, create_peer_connection, flush_next, flush_pending_candidates, candidate_added,
  set_remote, handle_remote_ice_candidate, receive, Step, arrived, added_one, during, arrivals,
  additions,
}

receive_buffering :
    (cs : List Str) (s : Rtc)
    → s.has_remote ≡ false
    → receive cs s ≡ record s { pending = s.pending ++ cs }
unfolding receive handle_remote_ice_candidate
receive_buffering [] s h = λ i. record s { pending = sym (append-nil s.pending) i }
receive_buffering (c ∷ cs) s h =
    let next : handle_remote_ice_candidate c s ≡ record s { pending = s.pending ++ c ∷ [] } =
      ground arith in
    rw next (
      receive_buffering cs (record s { pending = s.pending ++ c ∷ [] }) h
      ∙ (λ i. record s { pending = append_assoc s.pending (c ∷ []) cs i }))

-- The third list has the elements of the first and of the second, each once, in their orders.
pub data Merge : List Str → List Str → List Str → Type 0 where
  nothing : Merge [] [] []
  of_first :
      {xs ys zs : List Str} (c : Str) → Merge xs ys zs → Merge (xs ++ c ∷ []) ys (zs ++ c ∷ [])
  of_second :
      {xs ys zs : List Str} (c : Str) → Merge xs ys zs → Merge xs (ys ++ c ∷ []) (zs ++ c ∷ [])

abbrev rest_of : Option (List Str) → List Str
rest_of none = []
rest_of (some rest) = rest

-- How often the loop still goes on.
abbrev left_over : Option (List Str) → ℕ
left_over none = 0
left_over (some rest) = suc (length rest)

-- While the loop runs, of these buffered candidates, and after it: what has arrived since.
record Flushing (buffered arrived_since : List Str) (s : Rtc) : Type 0 where
  given : List Str
  ds : List Str
  remote : s.has_remote ≡ true
  connection : s.added ≡ some ds
  merged : Merge given arrived_since ds
  split : buffered ≡ given ++ rest_of s.flush
  emptied : s.flush ≡ none → s.pending ≡ []

receive_one :
    (c : Str) (ds : List Str) (s : Rtc)
    → s.has_remote ≡ true
    → s.added ≡ some ds
    → handle_remote_ice_candidate c s ≡ record s { added = some (ds ++ c ∷ []) }
unfolding handle_remote_ice_candidate
receive_one c ds s remote connection = ground arith

arrived-Flushing :
    (buffered since : List Str) (c : Str) (s : Rtc)
    → Flushing buffered since s
    → Flushing buffered (since ++ c ∷ []) (handle_remote_ice_candidate c s)
arrived-Flushing buffered since c s v = rw (receive_one c v.ds s v.remote v.connection) (record {
  given = v.given;
  ds = v.ds ++ c ∷ [];
  remote = v.remote;
  connection = refl;
  merged = of_second c v.merged;
  split = v.split;
  emptied = v.emptied;
})

flush_next-Flushing :
    (given since ds rest : List Str) (s : Rtc)
    → s.has_remote ≡ true
    → s.added ≡ some ds
    → Merge given since ds
    → Flushing (given ++ rest) since (flush_next rest s)
unfolding flush_next
flush_next-Flushing given since ds [] s remote connection merged = record {
  given = given;
  ds = ds;
  remote = remote;
  connection = connection;
  merged = merged;
  split = refl;
  emptied = λ e. refl;
}
flush_next-Flushing given since ds (c ∷ rest) s remote connection merged = rw connection (record {
  given = given ++ c ∷ [];
  ds = ds ++ c ∷ [];
  remote = remote;
  connection = refl;
  merged = of_first c merged;
  split = sym (append_assoc given (c ∷ []) rest);
  emptied = λ e. cc;
})

candidate_added_idle : (s : Rtc) → s.flush ≡ none → candidate_added s ≡ s
unfolding candidate_added
candidate_added_idle s e = ground (arith, e)

candidate_added_running :
    (s : Rtc) (rest : List Str) → s.flush ≡ some rest → candidate_added s ≡ flush_next rest s
unfolding candidate_added
candidate_added_running s rest e = ground (arith, e)

candidate_added-Flushing :
    (buffered since : List Str) (s : Rtc)
    → Flushing buffered since s
    → Flushing buffered since (candidate_added s)
candidate_added-Flushing buffered since s v = elim (Option-cases s.flush) [
  | inl idle ↦ rw (candidate_added_idle s idle) v
  | inr (rest, running) ↦
      let whole : v.given ++ rest ≡ buffered =
        sym (v.split ∙ ap (λ f. v.given ++ rest_of f) running) in
      rw (candidate_added_running s rest running) (
        subst (λ b. Flushing b since (flush_next rest s)) whole
          (flush_next-Flushing v.given since v.ds rest s v.remote v.connection v.merged))
]

left_over-flush_next :
    (rest ds : List Str) (s : Rtc)
    → s.added ≡ some ds
    → left_over (flush_next rest s).flush ≡ length rest
unfolding flush_next
left_over-flush_next [] ds s e = refl
left_over-flush_next (c ∷ rest) ds s e = rw e refl

left_over-candidate_added :
    (ds : List Str) (s : Rtc)
    → s.added ≡ some ds
    → left_over (candidate_added s).flush ≡ left_over s.flush - 1
left_over-candidate_added ds s e = elim (Option-cases s.flush) [
  | inl idle ↦
      rw (candidate_added_idle s idle) (ap left_over idle ∙ sym (ap (λ f. left_over f - 1) idle))
  | inr (rest, running) ↦
      let one_less : length rest ≡ suc (length rest) - 1 = omega arith in
      rw (candidate_added_running s rest running)
        (left_over-flush_next rest ds s e ∙ one_less ∙ sym (ap (λ f. left_over f - 1) running))
]

left_over-during :
    (steps : List Step) (buffered since : List Str) (s : Rtc)
    → Flushing buffered since s
    → left_over (during steps s).flush ≡ left_over s.flush - additions steps
unfolding during additions
left_over-during [] buffered since s v = omega arith
left_over-during (arrived c ∷ steps) buffered since s v =
    left_over-during steps buffered (since ++ c ∷ []) (handle_remote_ice_candidate c s)
      (arrived-Flushing buffered since c s v)
    ∙ ap (λ t. left_over t.flush - additions steps) (receive_one c v.ds s v.remote v.connection)
left_over-during (added_one ∷ steps) buffered since s v =
    let later =
      left_over-during steps buffered since (candidate_added s)
        (candidate_added-Flushing buffered since s v) in
    let once = left_over-candidate_added v.ds s v.connection in omega (arith, later, once)

during-Flushing :
    (steps : List Step) (buffered since : List Str) (s : Rtc)
    → Flushing buffered since s
    → Flushing buffered (since ++ arrivals steps) (during steps s)
unfolding during arrivals
during-Flushing [] buffered since s v = rw (append-nil since) v
during-Flushing (arrived c ∷ steps) buffered since s v =
    rw (← append_assoc since (c ∷ []) (arrivals steps)) (
      during-Flushing steps buffered (since ++ c ∷ []) (handle_remote_ice_candidate c s)
        (arrived-Flushing buffered since c s v))
during-Flushing (added_one ∷ steps) buffered since s v =
    during-Flushing steps buffered since (candidate_added s)
      (candidate_added-Flushing buffered since s v)

no_rest : (f : Option (List Str)) → left_over f ≡ 0 → f ≡ none
no_rest none e = refl
no_rest (some rest) e = absurd (omega arith)

-- The connection once the remote description is set, with these candidates in the buffer.
abbrev connected : List Str → Rtc
connected buffered = record {
  local_track = some true;
  added = some [];
  pending = buffered;
  flush = none;
  has_remote = true;
  is_muted = false;
}

abbrev described : List Str → Rtc
described buffered = flush_next buffered (connected buffered)

flushed :
    (buffered : List Str) (steps : List Step)
    → length buffered ≤ additions steps
    → let t = during steps (described buffered) in
      (ds : List Str) × (t.added ≡ some ds) × Merge buffered (arrivals steps) ds × (t.pending ≡ [])
flushed buffered steps enough =
    let start : Flushing buffered [] (described buffered) =
      flush_next-Flushing [] [] [] buffered (connected buffered) refl refl nothing in
    let v : Flushing buffered (arrivals steps) (during steps (described buffered)) =
      during-Flushing steps buffered [] (described buffered) start in
    let count = left_over-during steps buffered [] (described buffered) start in
    let first = left_over-flush_next buffered [] (connected buffered) refl in
    let ended : (during steps (described buffered)).flush ≡ none =
      no_rest (during steps (described buffered)).flush (omega (arith, count, first)) in
    let all : buffered ≡ v.given =
      v.split ∙ ap (λ f. v.given ++ rest_of f) ended ∙ append-nil v.given in
    (
      v.ds,
      v.connection,
      subst (λ b. Merge b (arrivals steps) v.ds) (sym all) v.merged,
      v.emptied ended,
    )

-- From the start of a call on, every candidate reaches the connection, once: those that came before
-- the remote description in the order of their arrival, and so those that came after it; but one
-- that comes while the buffered ones are still being added can overtake them. (The loop over the
-- buffer goes on until it is through, and no candidate is refused by the browser.)
pub call_candidates :
    (before between : List Str) (steps : List Step) (s : Rtc)
    → length (before ++ between) ≤ additions steps
    → let t =
        during steps
          (set_remote (receive between (create_peer_connection (receive before (begin_call s))))) in
      (ds : List Str) × (t.added ≡ some ds)
      × Merge (before ++ between) (arrivals steps) ds
      × (t.pending ≡ [])
unfolding begin_call create_peer_connection set_remote flush_pending_candidates
call_candidates before between steps s enough = rw (receive_buffering before (begin_call s) refl) (
    rw
      (receive_buffering between
        (record {
          local_track = some true;
          added = some [];
          pending = before;
          flush = none;
          has_remote = false;
          is_muted = false;
        })
        refl)
      (flushed (before ++ between) steps enough))
