-- ===== src/Chats/ReceiptLaws.antt =====
-- The read-receipt pointers never go back, and a burst of messages costs one delivery ack.
use nothingapp.Common.{
  ℕ, ◌<◌, ◌≤◌, max, ◌==◌, ◌≡◌, ◌⊎◌, refl, Bool, none, some, List, [], ◌∷◌, if◌then◌else◌, or_else,
  arith, ◌∙◌, ap,
}
use nothingapp.Common.IdMap.{IdMap, get, get-put, get-delete}
use nothingapp.Chats.Receipts.{
  Receipt, no_receipt, message_status, seed_receipt, Acks, schedule_delivered_ack, flush_ack,
  schedule_all,
}

-- The pointers of a chat, 0 where nothing is known.
abbrev pub receipt_of : ℕ → IdMap Receipt → Receipt
receipt_of chat m = or_else (get chat m) no_receipt

-- What a status event leaves: the chat's delivered pointer is the larger of the old one and the
-- event's, the read pointer too if the event says read, and every other chat's pointers stay.
pub message_status_lem :
    (chat other up_to : ℕ) (is_read : Bool) (m : IdMap Receipt)
    → let cur = receipt_of chat m in
      receipt_of other (message_status chat up_to is_read m) ≡ (
        if chat == other
        then record {
          delivered = max cur.delivered up_to;
          read = if is_read then max cur.read up_to else cur.read;
        }
        else receipt_of other m)
unfolding message_status
message_status_lem chat other up_to is_read m = ground (
  arith,
  get-put chat other
      (record {
        delivered = max (receipt_of chat m).delivered up_to;
        read = if is_read then max (receipt_of chat m).read up_to else (receipt_of chat m).read;
      })
      m,
)

-- No event moves a pointer back.
pub message_status_mono :
    (chat other up_to : ℕ) (is_read : Bool) (m : IdMap Receipt)
    → ((receipt_of other m).delivered
        ≤ (receipt_of other (message_status chat up_to is_read m)).delivered)
      × ((receipt_of other m).read ≤ (receipt_of other (message_status chat up_to is_read m)).read)
message_status_mono chat other up_to is_read m =
    ground (arith, message_status_lem chat other up_to is_read m)

abbrev pub largest : List ℕ → ℕ → ℕ
largest [] n = n
largest (m ∷ ms) n = largest ms (max n m)

-- Opening a chat moves no pointer back either, and leaves the pointers of other chats.
pub seed_receipt_mono :
    (chat other last_delivered last_read : ℕ) (m : IdMap Receipt)
    → let m' = seed_receipt chat last_delivered last_read m in
      ((receipt_of other m).delivered ≤ (receipt_of other m').delivered)
      × ((receipt_of other m).read ≤ (receipt_of other m').read)
      × ((chat ≡ other) ⊎ (receipt_of other m' ≡ receipt_of other m))
unfolding seed_receipt
seed_receipt_mono chat other last_delivered last_read m = ground (
  arith,
  get-put chat other
      (record {
        delivered = max (receipt_of chat m).delivered last_delivered;
        read = max (receipt_of chat m).read last_read;
      })
      m,
)

abbrev pending_of : ℕ → Acks → ℕ
pending_of chat s = or_else (get chat s.pending) 0

-- A chat with a pending id has its timer.
abbrev IsTimed : ℕ → Acks → Type 0
IsTimed chat s = 0 < pending_of chat s → get chat s.timers ≡ some tt

module _ (chat m : ℕ) (s : Acks) where
  schedule_pending : pending_of chat (schedule_delivered_ack chat m s) ≡ max (pending_of chat s) m
  unfolding schedule_delivered_ack
  schedule_pending = ground (arith, get-put chat chat m s.pending)

  schedule-IsTimed : IsTimed chat s → IsTimed chat (schedule_delivered_ack chat m s)
  unfolding schedule_delivered_ack
  schedule-IsTimed h p =
      ground (arith, h, get-put chat chat m s.pending, get-put chat chat tt s.timers)

  schedule_acked : (schedule_delivered_ack chat m s).acked ≡ s.acked
  unfolding schedule_delivered_ack
  schedule_acked = ground arith

schedule_all_facts :
    (chat : ℕ) (ms : List ℕ) (s : Acks)
    → IsTimed chat s
    → let t = schedule_all chat ms s in
      (pending_of chat t ≡ largest ms (pending_of chat s)) × (t.acked ≡ s.acked) × IsTimed chat t
unfolding schedule_all
schedule_all_facts chat [] s h = (refl, refl, h)
schedule_all_facts chat (m ∷ ms) s h =
    let (a, b, c) =
      schedule_all_facts chat ms (schedule_delivered_ack chat m s) (schedule-IsTimed chat m s h) in
    (a ∙ ap (largest ms) (schedule_pending chat m s), b ∙ schedule_acked chat m s, c)

-- A burst of messages in a chat that has no pending ack, with the timer firing after it: exactly
-- one ack is sent, with the largest id of the burst, and the timer firing again sends nothing. (The
-- largest id is not 0.)
pub flush_ack-schedule_all :
    (chat : ℕ) (ms : List ℕ) (s : Acks)
    → get chat s.pending ≡ none
    → 0 < largest ms 0
    → let t = flush_ack chat (schedule_all chat ms s) in
      (t.acked ≡ (chat, largest ms 0) ∷ s.acked) × (flush_ack chat t ≡ t)
unfolding flush_ack
flush_ack-schedule_all chat ms s none_pending positive =
    let t = schedule_all chat ms s in
    let start : pending_of chat s ≡ 0 = ground arith in
    let (sum, kept, timed) = schedule_all_facts chat ms s (λ p. absurd (omega (arith, start))) in
    let total : pending_of chat t ≡ largest ms 0 = sum ∙ ap (largest ms) start in
    let timer : get chat t.timers ≡ some tt = timed (omega (arith, total)) in
    ground (arith, get-delete chat chat t.timers)
