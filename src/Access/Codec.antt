-- ===== src/Access/Codec.antt =====
-- backend/wealdrelay/src/access/mod.rs: the encoding of an access set, and what a signer signs.
use wealdrelay.Base.{
  ℕ, zero, suc, Bool, true, false, Option, none, some, List, [], ◌∷◌, map, ltb, if◌then◌else◌,
  Result, Method, ◌>>=◌, ◌>>◌, pure, fail, convert,
}
use wealdrelay.Cbor.Encode
use wealdrelay.Cbor.Reader.{Reader, new, finish}
use wealdrelay.Cbor.Typed.{uint, u8, bytes_of, array, array_header, optional_is_null}
use wealdrelay.Access.{
  AccessSet, RecoveryQuorum, QuorumSignature, AccessError, encoding, too_many_entries, list,
  quorum_signatures, key_bytes, hash_bytes, sig_bytes, max_entries,
}

abbrev pub Decode : Type 0 → Type 0
Decode A = Method Reader AccessError A

unfoldable pub encode_list : List (List ℕ) → List ℕ
encode_list items = Encode.array (map Encode.bytes items)

unfoldable pub encode_signature : QuorumSignature → List ℕ
encode_signature s = Encode.array (Encode.bytes s.key ∷ Encode.bytes s.sig ∷ [])

unfoldable pub encode_quorum : RecoveryQuorum → Bool → List ℕ
unfolding encode_list encode_signature
encode_quorum q with_signatures = Encode.array (
    Encode.uint q.threshold
    ∷ encode_list q.keys
    ∷ Encode.array (if with_signatures then map encode_signature q.sigs else [])
    ∷ [])

unfoldable pub encode_nullable : Option RecoveryQuorum → Bool → List ℕ
unfolding encode_quorum
encode_nullable none with_signatures = Encode.null
encode_nullable (some q) with_signatures = encode_quorum q with_signatures

-- What a signer signs: the ten fields before the signature, the quorum without its signatures.
unfoldable pub digest_fields : AccessSet → List (List ℕ)
unfolding encode_list encode_nullable
digest_fields a =
    Encode.bytes a.workspace
    ∷ Encode.uint a.version
    ∷ Encode.bytes a.prev_hash
    ∷ Encode.uint a.issued_at
    ∷ encode_list a.entries
    ∷ encode_list a.authorizers
    ∷ encode_list a.recovery
    ∷ encode_nullable a.quorum false
    ∷ encode_list a.pending
    ∷ Encode.bytes a.signer
    ∷ []

unfoldable pub digest_input : AccessSet → List ℕ
unfolding digest_fields
digest_input a = Encode.array (digest_fields a)

unfoldable pub digest : (List ℕ → List ℕ) → AccessSet → List ℕ
unfolding digest_input
digest blake3 a = blake3 (digest_input a)

unfoldable pub fields : AccessSet → List (List ℕ)
unfolding encode_list encode_nullable
fields a =
    Encode.bytes a.workspace
    ∷ Encode.uint a.version
    ∷ Encode.bytes a.prev_hash
    ∷ Encode.uint a.issued_at
    ∷ encode_list a.entries
    ∷ encode_list a.authorizers
    ∷ encode_list a.recovery
    ∷ encode_nullable a.quorum true
    ∷ encode_list a.pending
    ∷ Encode.bytes a.signer
    ∷ Encode.bytes a.sig
    ∷ []

unfoldable pub encode : AccessSet → List ℕ
unfolding fields
encode a = Encode.array (fields a)

-- The loop of `read_list`, with `n` rounds left.
unfoldable pub read_items : ℕ → ℕ → Decode (List (List ℕ))
read_items width zero = pure []
read_items width (suc n) = do
  item ← convert encoding (bytes_of width)
  items ← read_items width n
  pure (item ∷ items)

unfoldable pub read_list : ℕ → Decode (List (List ℕ))
unfolding read_items
read_list width = do
  count ← convert encoding array_header
  if ltb max_entries count then fail (too_many_entries list) else read_items width count

unfoldable pub read_signature : Decode QuorumSignature
read_signature = do
  convert encoding (array 2)
  key ← convert encoding (bytes_of key_bytes)
  sig ← convert encoding (bytes_of sig_bytes)
  pure (record { key = key; sig = sig })

-- The loop over the signatures of a quorum, with `n` rounds left.
unfoldable pub read_signatures : ℕ → Decode (List QuorumSignature)
unfolding read_signature
read_signatures zero = pure []
read_signatures (suc n) = do s ← read_signature; sigs ← read_signatures n; pure (s ∷ sigs)

unfoldable pub read_present : Decode RecoveryQuorum
unfolding read_list read_signatures
read_present = do
  convert encoding (array 3)
  threshold ← convert encoding u8
  keys ← read_list key_bytes
  count ← convert encoding array_header
  if ltb max_entries count then fail (too_many_entries quorum_signatures) else (do
    sigs ← read_signatures count
    pure (record { threshold = threshold; keys = keys; sigs = sigs }))

unfoldable pub read_quorum : Decode (Option RecoveryQuorum)
unfolding read_present
read_quorum = do
  is_null ← convert encoding optional_is_null
  if is_null then pure none else (do q ← read_present; pure (some q))

unfoldable pub read_fields : Decode AccessSet
unfolding read_list read_quorum
read_fields = do
  convert encoding (array 11)
  workspace ← convert encoding (bytes_of hash_bytes)
  version ← convert encoding uint
  prev_hash ← convert encoding (bytes_of hash_bytes)
  issued_at ← convert encoding uint
  entries ← read_list hash_bytes
  authorizers ← read_list key_bytes
  recovery ← read_list key_bytes
  quorum ← read_quorum
  pending ← read_list hash_bytes
  signer ← convert encoding (bytes_of key_bytes)
  sig ← convert encoding (bytes_of sig_bytes)
  pure (record {
    workspace = workspace;
    version = version;
    prev_hash = prev_hash;
    issued_at = issued_at;
    entries = entries;
    authorizers = authorizers;
    recovery = recovery;
    quorum = quorum;
    pending = pending;
    signer = signer;
    sig = sig;
  })

unfoldable pub decode : List ℕ → Result AccessError AccessSet
unfolding read_fields
decode input = ((do a ← read_fields; convert encoding finish; pure a) (new input)).0
