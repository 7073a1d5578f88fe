-- ===== src/Envelope/Validate.antt =====
-- backend/wealdrelay/src/envelope/mod.rs: what `validate` lets through, and what the content address
-- binds.
use wealdrelay.Base.{
  ℕ, ◌^◌, ◌≤◌, ◌≡◌, ◌↔◌, ap, arith, List, length, IsU64, IsByte, ok, bytes_eq, bytes_eq_sound,
  bytes_eq_refl, Method, ◌>>=◌, pure,
}
use wealdrelay.Cbor.Encode
use wealdrelay.Cbor.Reader.{CborError, Reader}
use wealdrelay.Cbor.Typed.{uint, bytes}
use wealdrelay.Envelope.{Envelope, mls, MinEncryption, min_mls, hashed, validate}

module _ (blake3 : List ℕ → List ℕ) where
  -- What an accepted envelope is.
  pub record IsAcceptable (e : Envelope) (floor : MinEncryption) : Type 0 where
    pub right_version : e.v ≡ 1
    pub strong_enough : floor ≡ min_mls → e.enc ≡ mls
    pub small_enough : length e.ct ≤ 2 ^ 20
    pub right_address : blake3 (hashed e.v e.enc e.group e.epoch e.ct) ≡ e.hash

  validate_sound :
      (e : Envelope) (floor : MinEncryption)
      → validate blake3 e floor ≡ ok tt
      → IsAcceptable e floor
  unfolding validate
  validate_sound e floor h = record {
    right_version = ground arith;
    strong_enough = ground arith;
    small_enough = ground arith;
    right_address =
        ground (arith, bytes_eq_sound (blake3 (hashed e.v e.enc e.group e.epoch e.ct)) e.hash);
  }

  validate_complete :
      (e : Envelope) (floor : MinEncryption)
      → IsAcceptable e floor
      → validate blake3 e floor ≡ ok tt
  unfolding validate
  validate_complete e floor h =
      ground (arith, ap (λ d. bytes_eq d e.hash) h.right_address, bytes_eq_refl e.hash)

  -- For any digest function, `validate` accepts an envelope exactly when its version is 1, it is
  -- MLS if the floor asks for MLS, its ciphertext is at most 2^20 bytes, and its hash is the
  -- digest of its version, encryption, group, epoch and ciphertext.
  pub validate_iff :
      (e : Envelope) (floor : MinEncryption)
      → (validate blake3 e floor ≡ ok tt) ↔ IsAcceptable e floor
  validate_iff e floor = (validate_sound e floor, validate_complete e floor)

-- A reader of what `content_hash` hashes.
record Hashed : Type 0 where
  v : ℕ
  enc : ℕ
  group : List ℕ
  epoch : ℕ
  ct : List ℕ

read_hashed : Method Reader CborError Hashed
read_hashed = do
  v ← uint
  enc ← uint
  group ← bytes
  epoch ← uint
  ct ← bytes
  pure (record { v = v; enc = enc; group = group; epoch = epoch; ct = ct })

-- The ranges of the arguments of `content_hash`.
pub record Hashable (v : ℕ) (group : List ℕ) (epoch : ℕ) (ct : List ℕ) : Type 0 where
  pub v_fits : IsByte v
  pub group_fits : IsU64 (length group)
  pub epoch_fits : IsU64 epoch
  pub ct_fits : IsU64 (length ct)
