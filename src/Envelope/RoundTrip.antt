-- ===== src/Envelope/RoundTrip.antt =====
-- backend/wealdrelay/src/envelope/mod.rs: `decode` behind `encode`.
use wealdrelay.Base.{◌≤◌, ◌<◌, ◌≡◌, refl, arith, length, All, IsU64, IsByte, ok, ok_or}
use wealdrelay.Cbor.Encode
use wealdrelay.Cbor.Typed.{u8}
use wealdrelay.Cbor.Compose.{
  Back, Back-pure, Back-lift, Back-convert, Back-bind, Back-whole, Back-uint, Back-narrowed,
  Back-bytes, Back-bytes_of, Back-array, length-uint-pos, length-bytes-pos,
}
use wealdrelay.Envelope.{
  Envelope, Encryption, plain, mls, cbor, from_u8, as_u64, fields, encode, read_fields, decode,
  unknown_encryption,
}

-- The ranges of the Rust field types, and the two fixed widths.
pub record InRange (e : Envelope) : Type 0 where
  pub v_fits : IsByte e.v
  pub group_fits : length e.group ≡ 32
  pub epoch_fits : IsU64 e.epoch
  pub seq_fits : IsU64 e.seq
  pub ts_fits : IsU64 e.ts
  pub hash_fits : length e.hash ≡ 32
  pub ct_fits : IsU64 (length e.ct)

from_u8-as_u64 :
    (enc : Encryption) → ok_or (from_u8 (as_u64 enc)) (unknown_encryption (as_u64 enc)) ≡ ok enc
unfolding from_u8 as_u64
from_u8-as_u64 plain = refl
from_u8-as_u64 mls = refl

as_u64-lt : (enc : Encryption) → as_u64 enc < 256
unfolding as_u64
as_u64-lt plain = omega arith
as_u64-lt mls = omega arith

-- Each field takes a byte at least.
fields-pos : (e : Envelope) → All (λ x. 1 ≤ length x) (fields e)
unfolding fields
fields-pos e = omega (arith, length-uint-pos, length-bytes-pos)

read_fields-Back : (e : Envelope) → InRange e → Back read_fields e (encode e)
unfolding read_fields encode u8 fields Encode.concat
read_fields-Back e h =
    let small = as_u64-lt e.enc in
    Back-array cbor (fields e) (omega arith) (fields-pos e) (
      Back-bind _ (Back-convert cbor (Back-narrowed _ e.v (omega arith) h.v_fits)) (
        Back-bind _ (Back-convert cbor (Back-narrowed _ (as_u64 e.enc) (omega arith) small)) (
          Back-bind _ (Back-lift (from_u8-as_u64 e.enc)) (
            Back-bind _ (Back-convert cbor (Back-bytes_of 32 e.group (omega arith) h.group_fits)) (
              Back-bind _ (Back-convert cbor (Back-uint e.epoch h.epoch_fits)) (
                Back-bind _ (Back-convert cbor (Back-uint e.seq h.seq_fits)) (
                  Back-bind _ (Back-convert cbor (Back-uint e.ts h.ts_fits)) (
                    Back-bind _
                      (Back-convert cbor (Back-bytes_of 32 e.hash (omega arith) h.hash_fits))
                      (Back-bind _ (Back-convert cbor (Back-bytes e.ct h.ct_fits))
                        (Back-pure e))))))))))

-- An envelope whose fields are in the ranges of their types, with a group and a hash of 32 bytes,
-- is decoded back from its encoding.
pub decode-encode : (e : Envelope) → InRange e → decode (encode e) ≡ ok e
unfolding decode
decode-encode e h = Back-whole cbor (read_fields-Back e h)
