-- ===== src/AppLock.antt =====
-- frontend/src/shared/appLock.ts and frontend/src/features/applock: the settings of the app lock in
-- the storage, the decision to lock, and the provider's state machine.
pub mod Settings
pub mod Provider
pub mod Decision
pub mod Guard
mod Tests
