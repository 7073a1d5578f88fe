-- ===== src/Tests.antt =====
-- Concrete inputs that the theorems are applied to.
pub mod Envelopes
pub mod Cursor
pub mod Wakes
pub mod Sends
pub mod Recon
pub mod Frames
pub mod Connections
pub mod Sets
pub mod Routes
pub mod Records
