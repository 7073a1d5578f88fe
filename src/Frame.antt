-- ===== src/Frame.antt =====
-- backend/wealdrelay/src/frame.rs: the frame set and the error taxonomy that every frame uses.
pub mod Code
pub mod Tag
pub mod Names
pub mod Body
pub mod Decode
pub mod Fits
pub mod Bodies
pub mod Fields
pub mod Forms
pub mod Wake
pub mod RoundTrip
