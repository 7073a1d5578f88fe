-- ===== src/Envelope.antt =====
-- backend/wealdrelay/src/envelope/mod.rs: the envelope, its encoding, and the checks on accept.
-- BLAKE3 is the parameter `blake3`, from the bytes hashed to the digest.
pub mod RoundTrip
pub mod Canonical
pub mod Validate
use wealdrelay.Base.{
  ℕ, ◌^◌, Bool, Option, none, some, List, [], ◌∷◌, ◌++◌, ltb, ◌==◌, if◌then◌else◌, length, bytes_eq,
  not, Result, ok, err, ok_or, Method, ◌>>=◌, ◌>>◌, pure, fail, lift, convert, ◌&&◌, true, false,
}
use wealdrelay.Cbor.Encode
use wealdrelay.Cbor.Reader.{CborError, Reader, new, finish}
use wealdrelay.Cbor.Typed.{uint, u8, bytes, bytes_of, array}
use wealdrelay.Frame.Code.{
  ErrorCode, noncanonical_cbor, protocol_unsupported, malformed_header, plaintext_refused,
  hash_mismatch, envelope_too_large,
}

abbrev pub version : ℕ
version = 1

abbrev pub group_bytes : ℕ
group_bytes = 32

abbrev pub hash_bytes : ℕ
hash_bytes = 32

abbrev pub max_ciphertext_bytes : ℕ
max_ciphertext_bytes = 2 ^ 20

pub data Encryption : Type 0 where
  plain mls : Encryption

unfoldable pub from_u8 : ℕ → Option Encryption
from_u8 value = if value == 0 then some plain else if value == 1 then some mls else none

-- `enc as u64`
unfoldable pub as_u64 : Encryption → ℕ
as_u64 plain = 0
as_u64 mls = 1

-- `config::MinEncryption`
pub data MinEncryption : Type 0 where
  min_none min_mls : MinEncryption

pub record Envelope : Type 0 where
  pub v : ℕ
  pub enc : Encryption
  pub group : List ℕ
  pub epoch : ℕ
  pub seq : ℕ
  pub ts : ℕ
  pub hash : List ℕ
  pub ct : List ℕ

pub data EnvelopeError : Type 0 where
  cbor : CborError → EnvelopeError
  unsupported_version : ℕ → EnvelopeError
  unknown_encryption : ℕ → EnvelopeError
  refused_plaintext : EnvelopeError
  mismatched_hash : EnvelopeError
  ciphertext_too_large : ℕ → EnvelopeError

unfoldable pub code : EnvelopeError → ErrorCode
code (cbor _) = noncanonical_cbor
code (unsupported_version _) = protocol_unsupported
code (unknown_encryption _) = malformed_header
code refused_plaintext = plaintext_refused
code mismatched_hash = hash_mismatch
code (ciphertext_too_large _) = envelope_too_large

-- What `content_hash` feeds to the hasher, in order.
unfoldable pub hashed : ℕ → Encryption → List ℕ → ℕ → List ℕ → List ℕ
unfolding as_u64
hashed v enc group epoch ct =
    Encode.uint v
    ++ (Encode.uint (as_u64 enc) ++ (Encode.bytes group ++ (Encode.uint epoch ++ Encode.bytes ct)))

-- The eight fields in the order of the specification.
unfoldable pub fields : Envelope → List (List ℕ)
unfolding as_u64
fields e =
    Encode.uint e.v
    ∷ Encode.uint (as_u64 e.enc)
    ∷ Encode.bytes e.group
    ∷ Encode.uint e.epoch
    ∷ Encode.uint e.seq
    ∷ Encode.uint e.ts
    ∷ Encode.bytes e.hash
    ∷ Encode.bytes e.ct
    ∷ []

unfoldable pub encode : Envelope → List ℕ
unfolding fields
encode e = Encode.array (fields e)

unfoldable pub read_fields : Method Reader EnvelopeError Envelope
unfolding from_u8
read_fields = do
  convert cbor (array 8)
  v ← convert cbor u8
  raw_enc ← convert cbor u8
  enc ← lift (ok_or (from_u8 raw_enc) (unknown_encryption raw_enc))
  group ← convert cbor (bytes_of group_bytes)
  epoch ← convert cbor uint
  seq ← convert cbor uint
  ts ← convert cbor uint
  hash ← convert cbor (bytes_of hash_bytes)
  ct ← convert cbor bytes
  pure (record {
    v = v;
    enc = enc;
    group = group;
    epoch = epoch;
    seq = seq;
    ts = ts;
    hash = hash;
    ct = ct;
  })

unfoldable pub decode : List ℕ → Result EnvelopeError Envelope
unfolding read_fields
decode input = ((do e ← read_fields; convert cbor finish; pure e) (new input)).0

abbrev is_mls_floor : MinEncryption → Bool
is_mls_floor min_mls = true
is_mls_floor min_none = false

abbrev is_plain : Encryption → Bool
is_plain plain = true
is_plain mls = false

module _ (blake3 : List ℕ → List ℕ) where
  unfoldable pub content_hash : ℕ → Encryption → List ℕ → ℕ → List ℕ → List ℕ
  unfolding hashed
  content_hash v enc group epoch ct = blake3 (hashed v enc group epoch ct)

  unfoldable pub computed_hash : Envelope → List ℕ
  unfolding content_hash
  computed_hash e = content_hash e.v e.enc e.group e.epoch e.ct

  unfoldable pub validate : Envelope → MinEncryption → Result EnvelopeError (Unit {0})
  unfolding computed_hash
  validate e floor =
      if not (e.v == version)
      then err (unsupported_version e.v)
      else if is_mls_floor floor && is_plain e.enc
      then err refused_plaintext
      else if ltb max_ciphertext_bytes (length e.ct)
      then err (ciphertext_too_large (length e.ct))
      else if not (bytes_eq (computed_hash e) e.hash)
      then err mismatched_hash
      else ok tt
