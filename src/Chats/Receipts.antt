-- ===== src/Chats/Receipts.antt =====
-- frontend/src/pages/ChatsPage.tsx: the read-receipt pointers of the chats, and the debounced
-- delivery acks.
use nothingapp.Common.{
  ℕ, max, leb, ltb, ◌==◌, ◌&&◌, Bool, none, some, List, [], ◌∷◌, if◌then◌else◌, or_else,
}
use nothingapp.Common.IdMap.{IdMap, get, put, delete}

pub record Receipt : Type 0 where
  pub delivered : ℕ
  pub read : ℕ

abbrev pub no_receipt : Receipt
no_receipt = record { delivered = 0; read = 0 }

abbrev same_receipt : Receipt → Receipt → Bool
same_receipt a b = a.delivered == b.delivered && a.read == b.read

-- The two updates of `messageReceipts`: a `message_status` event, and the seed when a chat is
-- opened.
unfoldable pub message_status : ℕ → ℕ → Bool → IdMap Receipt → IdMap Receipt
message_status chat up_to is_read m =
    let cur = or_else (get chat m) no_receipt in
    let next : Receipt = record {
      delivered = max cur.delivered up_to;
      read = if is_read then max cur.read up_to else cur.read;
    } in
    if same_receipt next cur then m else put chat next m

unfoldable pub seed_receipt : ℕ → ℕ → ℕ → IdMap Receipt → IdMap Receipt
seed_receipt chat last_delivered last_read m =
    let cur = or_else (get chat m) no_receipt in
    let next : Receipt = record {
      delivered = max cur.delivered last_delivered;
      read = max cur.read last_read;
    } in
    if ltb 0 last_delivered
    then if same_receipt next cur then m else put chat next m
    else if ltb 0 last_read
    then if same_receipt next cur then m else put chat next m
    else m

-- `pendingDeliveredRef` with the chats whose timer runs, and the acks that were sent.
pub record Acks : Type 0 where
  pub pending : IdMap ℕ
  pub timers : IdMap (Unit {0})
  pub acked : List (ℕ × ℕ)

unfoldable pub schedule_delivered_ack : ℕ → ℕ → Acks → Acks
schedule_delivered_ack chat message s =
    if leb message (or_else (get chat s.pending) 0)
    then s
    else record s { pending = put chat message s.pending; timers = put chat tt s.timers }

-- The timer of a chat fires; without a timer nothing does.
unfoldable pub flush_ack : ℕ → Acks → Acks
flush_ack chat s = elim (get chat s.timers) [
  | none ↦ s
  | some _ ↦
      let max_id = or_else (get chat s.pending) 0 in
      record s {
        pending = delete chat s.pending;
        timers = delete chat s.timers;
        acked = if ltb 0 max_id then (chat, max_id) ∷ s.acked else s.acked;
      }
]

unfoldable pub schedule_all : ℕ → List ℕ → Acks → Acks
schedule_all chat [] s = s
schedule_all chat (m ∷ ms) s = schedule_all chat ms (schedule_delivered_ack chat m s)
