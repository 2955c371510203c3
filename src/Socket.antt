-- ===== src/Socket.antt =====
-- frontend/src/shared/hooks/useGlobalWebSocket.ts: the connection to the server, from the mounting of
-- the hook's effect to its cleanup.
pub mod Hook
pub mod Live
pub mod Runs
pub mod Retries
mod Tests
