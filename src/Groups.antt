-- ===== src/Groups.antt =====
-- The panel of a group of frontend/src/features/chats/GroupInfoPanel.tsx: who may do what to whom.
pub mod Panel
pub mod Allowed
mod Tests
