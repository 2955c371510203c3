-- ===== src/Crypto.antt =====
-- frontend/src/shared/crypto: the end-to-end encryption. `Platform` is the browser's part, `Async`
-- the monad of the `async` functions.
pub mod Platform
pub mod Async
pub mod E2e
pub mod PeerKeys
pub mod Attachments
pub mod Toy
mod Tests
