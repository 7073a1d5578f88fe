-- ===== src/Push.antt =====
-- backend/wealdrelay/src/push: waking sleeping devices.
pub mod Category
pub mod Queue
