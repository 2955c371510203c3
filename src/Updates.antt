-- ===== src/Updates.antt =====
-- frontend/src/features/updates: the in-app updater.
pub mod Updater
pub mod Offers
pub mod Runs
pub mod Dismissal
mod Tests
