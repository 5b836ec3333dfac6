-- ===== src/Connection.antt =====
-- core/connection: the handshake by which two Tetis become connected.
pub mod Types
pub mod Protocol
pub mod Storage
pub mod World
pub mod Handshake
pub mod Manager
pub mod Reconcile
mod Tests
