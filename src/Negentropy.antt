-- ===== src/Negentropy.antt =====
-- backend/wealdrelay/src/negentropy: range-based set reconciliation.
pub mod Items
pub mod Ids
pub mod Slices
pub mod Message
pub mod Split
pub mod Reconcile
