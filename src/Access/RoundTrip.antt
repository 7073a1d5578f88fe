-- ===== src/Access/RoundTrip.antt =====
-- backend/wealdrelay/src/access/mod.rs: `decode` behind `encode`.
use wealdrelay.Base.{
  ℕ, ◌≤◌, ◌≡◌, refl, arith, true, false, Option, none, some, List, [], ◌∷◌, ◌++◌, ltb, length, map,
  All, IsU64, IsByte, ok,
}
use wealdrelay.Cbor.Encode
use wealdrelay.Cbor.Encode.{concat, head}
use wealdrelay.Cbor.Reader.{Reader}
use wealdrelay.Cbor.Typed.{u8, optional_is_null}
use wealdrelay.Cbor.Compose.{
  Back, Back-pure, Back-convert, Back-bind, Back-whole, Back-uint, Back-narrowed, Back-bytes_of,
  Back-array, Back-counted, Back-counted-then, Back-last, length-uint-pos, length-bytes-pos,
  length-array-pos, length-map, bytes-pos,
}
use wealdrelay.Cbor.RoundTrip.{At, head-first, byte_at-first, first-append, read_null_back}
use wealdrelay.Cbor.Typed.{advance}
use wealdrelay.Access.{AccessSet, RecoveryQuorum, QuorumSignature, encoding, max_entries}
use wealdrelay.Access.Codec.{
  encode_list, encode_signature, encode_quorum, encode_nullable, fields, encode, read_items,
  read_list, read_signature, read_signatures, read_present, read_quorum, read_fields, decode,
}

abbrev pub IsKey : List ℕ → Type 0
IsKey k = length k ≡ 32

-- A list of 32-byte strings that a set may carry.
abbrev pub IsKeyList : List (List ℕ) → Type 0
IsKeyList ks = (length ks ≤ max_entries) × All IsKey ks

abbrev pub IsSignature : QuorumSignature → Type 0
IsSignature s = IsKey s.key × (length s.sig ≡ 64)

abbrev pub IsQuorum : Option RecoveryQuorum → Type 0
IsQuorum none = Unit {0}
IsQuorum (some q) =
    IsByte q.threshold × IsKeyList q.keys × (length q.sigs ≤ max_entries) × All IsSignature q.sigs

-- The ranges of the Rust field types, the fixed widths and the bound on a list.
pub record InRange (a : AccessSet) : Type 0 where
  pub workspace_fits : IsKey a.workspace
  pub version_fits : IsU64 a.version
  pub prev_fits : IsKey a.prev_hash
  pub issued_fits : IsU64 a.issued_at
  pub entries_fit : IsKeyList a.entries
  pub authorizers_fit : IsKeyList a.authorizers
  pub recovery_fit : IsKeyList a.recovery
  pub quorum_fits : IsQuorum a.quorum
  pub pending_fit : IsKeyList a.pending
  pub signer_fits : IsKey a.signer
  pub sig_fits : length a.sig ≡ 64

read_items-Back :
    (xs : List (List ℕ))
    → All IsKey xs
    → Back (read_items 32 (length xs)) xs (concat (map Encode.bytes xs))
unfolding read_items concat
read_items-Back [] h = Back-pure []
read_items-Back (x ∷ xs) h =
    Back-bind _ (Back-convert encoding (Back-bytes_of 32 x (omega arith) h.0))
      (Back-last _ (read_items-Back xs h.1) (Back-pure (x ∷ xs)))

read_list-Back : (xs : List (List ℕ)) → IsKeyList xs → Back (read_list 32) xs (encode_list xs)
unfolding read_list encode_list
read_list-Back xs (few, keys) =
    let items = map Encode.bytes xs in
    let n : length items ≡ length xs = length-map Encode.bytes xs in
    let small : ltb max_entries (length xs) ≡ false = ground (arith, few) in
    Back-counted encoding _ items (omega (arith, n, few)) (bytes-pos xs)
      (rw (n, small) (read_items-Back xs keys))

length-encode_list-pos : (xs : List (List ℕ)) → 1 ≤ length (encode_list xs)
unfolding encode_list
length-encode_list-pos xs = length-array-pos _

length-encode_nullable-pos : (q : Option RecoveryQuorum) → 1 ≤ length (encode_nullable q true)
unfolding encode_nullable encode_quorum
length-encode_nullable-pos none = omega arith
length-encode_nullable-pos (some q) = length-array-pos _

length-signature-pos : (s : QuorumSignature) → 1 ≤ length (encode_signature s)
unfolding encode_signature
length-signature-pos s = length-array-pos _

signatures-pos : (ss : List QuorumSignature) → All (λ x. 1 ≤ length x) (map encode_signature ss)
signatures-pos [] = tt
signatures-pos (s ∷ ss) = (length-signature-pos s, signatures-pos ss)

read_signature-Back :
    (s : QuorumSignature) → IsSignature s → Back read_signature s (encode_signature s)
unfolding read_signature encode_signature concat
read_signature-Back s (key, sig) =
    Back-array encoding (Encode.bytes s.key ∷ Encode.bytes s.sig ∷ []) (omega arith)
      (omega (arith, length-bytes-pos s.key, length-bytes-pos s.sig))
      (Back-bind _ (Back-convert encoding (Back-bytes_of 32 s.key (omega arith) key)) (
        Back-bind _ (Back-convert encoding (Back-bytes_of 64 s.sig (omega arith) sig))
          (Back-pure s)))

read_signatures-Back :
    (ss : List QuorumSignature)
    → All IsSignature ss
    → Back (read_signatures (length ss)) ss (concat (map encode_signature ss))
unfolding read_signatures concat
read_signatures-Back [] h = Back-pure []
read_signatures-Back (s ∷ ss) h =
    Back-bind _ (read_signature-Back s h.0)
      (Back-last _ (read_signatures-Back ss h.1) (Back-pure (s ∷ ss)))

read_present-Back :
    (q : RecoveryQuorum) → IsQuorum (some q) → Back read_present q (encode_quorum q true)
unfolding read_present encode_quorum concat u8
read_present-Back q (small, keys, few, sigs) =
    let items = map encode_signature q.sigs in
    let n : length items ≡ length q.sigs = length-map encode_signature q.sigs in
    let fits : ltb max_entries (length q.sigs) ≡ false = ground (arith, few) in
    Back-array encoding (Encode.uint q.threshold ∷ encode_list q.keys ∷ Encode.array items ∷ [])
      (omega arith)
      (length-uint-pos q.threshold, (length-encode_list-pos q.keys, (length-array-pos items, tt)))
      (Back-bind _
        (Back-convert encoding (Back-narrowed _ q.threshold (omega (arith, small)) small))
        (Back-bind _ (read_list-Back q.keys keys) (
          Back-counted-then encoding _ items [] (omega (arith, n, few)) (signatures-pos q.sigs)
            (rw (n, fits) (Back-bind _ (read_signatures-Back q.sigs sigs) (Back-pure q))))))

-- In front of `null` the answer is yes, behind it.
is_null_back :
    (r : Reader) (post : List ℕ)
    → At r (Encode.null ++ post)
    → optional_is_null r ≡ (ok true, advance 1 r)
unfolding optional_is_null
is_null_back r post e =
    ground (arith, byte_at-first r Encode.null post e refl, read_null_back r post e)

-- In front of an array the answer is no, and nothing is read.
is_null_array :
    (r : Reader) (items : List (List ℕ)) (post : List ℕ)
    → At r (Encode.array items ++ post)
    → optional_is_null r ≡ (ok false, r)
unfolding optional_is_null
is_null_array r items post e =
    let (b, here, major) = head-first 4 (length items) (omega arith) in
    ground (
      arith,
      byte_at-first r (Encode.array items) post {b = b} e
          (unfold Encode.array in first-append (head 4 (length items)) (concat items) here),
    )

read_quorum-Back :
    (q : Option RecoveryQuorum) → IsQuorum q → Back read_quorum q (encode_nullable q true)
unfolding read_quorum encode_nullable
read_quorum-Back none h = record { back = λ r post e. ground (arith, is_null_back r post e) }
read_quorum-Back (some q) h = record {
  back = λ r post e. ground (
    arith,
    is_null_array r
        (Encode.uint q.threshold
          ∷ encode_list q.keys
          ∷ Encode.array (map encode_signature q.sigs)
          ∷ [])
        post (unfold encode_quorum in e),
    (read_present-Back q h).back r post e,
  );
}

fields-pos : (a : AccessSet) → All (λ x. 1 ≤ length x) (fields a)
unfolding fields
fields-pos a = (
  length-bytes-pos _,
  (
    length-uint-pos _,
    (
      length-bytes-pos _,
      (
        length-uint-pos _,
        (
          length-encode_list-pos _,
          (
            length-encode_list-pos _,
            (
              length-encode_list-pos _,
              (
                length-encode_nullable-pos a.quorum,
                (length-encode_list-pos _, (length-bytes-pos _, (length-bytes-pos _, tt))),
              ),
            ),
          ),
        ),
      ),
    ),
  ),
)

read_fields-Back : (a : AccessSet) → InRange a → Back read_fields a (encode a)
unfolding read_fields encode fields concat
read_fields-Back a h = Back-array encoding (fields a) (omega arith) (fields-pos a) (
    Back-bind _
      (Back-convert encoding (Back-bytes_of 32 a.workspace (omega arith) h.workspace_fits))
      (Back-bind _ (Back-convert encoding (Back-uint a.version h.version_fits)) (
        Back-bind _ (Back-convert encoding (Back-bytes_of 32 a.prev_hash (omega arith) h.prev_fits))
          (Back-bind _ (Back-convert encoding (Back-uint a.issued_at h.issued_fits)) (
            Back-bind _ (read_list-Back a.entries h.entries_fit) (
              Back-bind _ (read_list-Back a.authorizers h.authorizers_fit) (
                Back-bind _ (read_list-Back a.recovery h.recovery_fit) (
                  Back-bind _ (read_quorum-Back a.quorum h.quorum_fits) (
                    Back-bind _ (read_list-Back a.pending h.pending_fit) (
                      Back-bind _
                        (Back-convert encoding
                          (Back-bytes_of 32 a.signer (omega arith) h.signer_fits))
                        (Back-bind _
                          (Back-convert encoding (Back-bytes_of 64 a.sig (omega arith) h.sig_fits))
                          (Back-pure a))))))))))))

-- An access set whose fields are in the ranges of their types, with its fixed widths and no list
-- longer than 4096, is decoded back from its encoding.
pub access_set_back : (a : AccessSet) → InRange a → decode (encode a) ≡ ok a
unfolding decode
access_set_back a h = Back-whole encoding (read_fields-Back a h)
