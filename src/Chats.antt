-- ===== src/Chats.antt =====
-- frontend/src/pages/ChatsPage.tsx: the page that owns the chat list, the open thread and the caches,
-- and the WebSocket events that change them; with frontend/src/shared/messageCache.ts and
-- frontend/src/shared/crypto/decryptIncoming.ts, which it calls.
pub mod Receipts
pub mod ReceiptLaws
pub mod Thread
pub mod ChatOrder
pub mod Page
pub mod Unread
pub mod Threads
pub mod Machine
pub mod Handlers
pub mod Consistent
pub mod Stale
pub mod Incoming
pub mod Loading
pub mod History
pub mod Navigation
pub mod Opening
mod Tests
