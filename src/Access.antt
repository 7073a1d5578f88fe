-- ===== src/Access.antt =====
-- backend/wealdrelay/src/access/mod.rs: the signed access set of a workspace. BLAKE3 and the strict
-- ed25519 check are parameters of what uses them: `blake3`, from the bytes hashed to the digest, and
-- `strict`, from a key, a message and a signature.
pub mod Codec
pub mod RoundTrip
pub mod Shape
pub mod Judge
use wealdrelay.Base.{ℕ, ◌+◌, Bool, Option, List, ◌++◌, ◌&&◌, ◌==◌, length}
use wealdrelay.Cbor.Reader.{CborError}
use wealdrelay.Frame.Code.{ErrorCode, malformed_header, noncanonical_cbor, writer_not_in_access_set}

abbrev pub key_bytes : ℕ
key_bytes = 32

abbrev pub hash_bytes : ℕ
hash_bytes = 32

abbrev pub sig_bytes : ℕ
sig_bytes = 64

abbrev pub max_entries : ℕ
max_entries = 4_096

pub data SignedAs : Type 0 where
  authorizer recovery : SignedAs

pub record QuorumSignature : Type 0 where
  pub key : List ℕ
  pub sig : List ℕ

pub record RecoveryQuorum : Type 0 where
  pub threshold : ℕ
  pub keys : List (List ℕ)
  pub sigs : List QuorumSignature

pub record AccessSet : Type 0 where
  pub workspace : List ℕ
  pub version : ℕ
  pub prev_hash : List ℕ
  pub issued_at : ℕ
  pub entries : List (List ℕ)
  pub authorizers : List (List ℕ)
  pub recovery : List (List ℕ)
  pub quorum : Option RecoveryQuorum
  pub pending : List (List ℕ)
  pub signer : List ℕ
  pub sig : List ℕ

-- The static texts that an error carries.
pub data ListName : Type 0 where
  entries authorizers recovery pending quorum list quorum_signatures : ListName

pub data Authority : Type 0 where
  last_authorizer last_recovery_principal : Authority

pub data RotationFault : Type 0 where
  name_pending rotate_own_key one_successor own_key_only remove_own_entry : RotationFault
  one_replacement add_two_entries remove_no_authorizer pin_prior_entries pin_no_authorizer :
      RotationFault

pub data QuorumFault : Type 0 where
  keys_fault threshold_fault : QuorumFault

pub data AccessError : Type 0 where
  encoding : CborError → AccessError
  empty_list too_many_entries unsorted : ListName → AccessError
  version_not_next : ℕ → ℕ → AccessError
  prev_hash_mismatch signer_not_permitted bad_signature principal_not_an_entry : AccessError
  would_strand_authority : Authority → AccessError
  rotation_shape : RotationFault → AccessError
  rotation_rate_limited probation_exceeded : AccessError
  quorum_malformed : QuorumFault → AccessError
  workspace_mismatch : AccessError

unfoldable pub code : AccessError → ErrorCode
code (encoding _) = malformed_header
code (empty_list _) = malformed_header
code (too_many_entries _) = malformed_header
code (unsorted _) = malformed_header
code (quorum_malformed _) = malformed_header
code bad_signature = noncanonical_cbor
code _ = writer_not_in_access_set

unfoldable pub entry_hash : (List ℕ → List ℕ) → List ℕ → List ℕ → List ℕ
entry_hash blake3 pubkey salt = blake3 (pubkey ++ salt)

-- A key and a signature of the wrong width verify nothing.
unfoldable pub verify : (List ℕ → List ℕ → List ℕ → Bool) → List ℕ → List ℕ → List ℕ → Bool
verify strict pubkey message signature =
    (length pubkey == key_bytes)
    && ((length signature == sig_bytes) && strict pubkey message signature)
