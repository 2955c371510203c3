-- ===== src/Contacts.antt =====
-- The list of contacts of frontend/src/features/contacts, and the long press that selects in it.
pub mod Press
pub mod Modal
pub mod Selection
mod Tests
