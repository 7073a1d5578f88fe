-- ===== src/Session.antt =====
-- backend/wealdrelay/src/session.rs: the state of one connection, what its handler answers, and the
-- policy on what it defers. The process's secret and the hash are arguments of what uses them.
pub mod FrameBudget
pub mod Limits
pub mod Work
pub mod Meter
pub mod Arms
pub mod Handle
pub mod Spec
pub mod Protocol
pub mod Charges
pub mod Rate
pub mod WellFormed
pub mod Runs
