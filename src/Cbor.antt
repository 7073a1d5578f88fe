-- ===== src/Cbor.antt =====
-- backend/wealdrelay/src/cbor.rs: deterministic CBOR, the encoder and the cursor that reads it back.
pub mod Encode
pub mod Utf8
pub mod Reader
pub mod Typed
pub mod Argument
pub mod Head
pub mod Canonical
pub mod RoundTrip
pub mod Accept
pub mod Compose
pub mod Takes
