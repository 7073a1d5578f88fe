-- ===== src/Negentropy/Message.antt =====
-- The RECON payload of backend/wealdrelay/src/negentropy/mod.rs: its encoding and its decoder.
pub mod Valid
pub mod RoundTrip
use wealdrelay.Base.{
  bytes_lt, ℕ, zero, suc, ◌+◌, ◌-◌, ◌^◌, Bool, true, false, not, Option, none, some, List, [], ◌∷◌,
  ◌++◌, ltb, leb, ◌==◌, if◌then◌else◌, length, map, Result, ok, err, Method, ◌>>=◌, ◌>>◌, pure,
  fail, convert, ◌&&◌,
}
use wealdrelay.Cbor.Encode
use wealdrelay.Cbor.Reader.{CborError, Reader, new, finish, type_mismatch}
use wealdrelay.Cbor.Typed.{uint, bytes, bytes_of, array, array_header, optional_bytes}
use wealdrelay.Negentropy.Items.{ContentId}

abbrev pub recon_version : ℕ
recon_version = 1

abbrev pub infinity : ℕ
infinity = 2 ^ 64 - 1

abbrev pub idlist_limit : ℕ
idlist_limit = 16

abbrev pub split_factor : ℕ
split_factor = 8

abbrev pub max_ranges : ℕ
max_ranges = 1024

abbrev pub max_ids_per_range : ℕ
max_ids_per_range = 4096

pub data Mode : Type 0 where
  skip : Mode
  fingerprinted : ContentId → Mode
  id_list : List ContentId → Mode

unfoldable pub tag : Mode → ℕ
tag skip = 0
tag (fingerprinted _) = 1
tag (id_list _) = 2

pub record Range : Type 0 where
  pub upper : ℕ
  pub mode : Mode

pub record Message : Type 0 where
  pub ranges : List Range

pub data ReconError : Type 0 where
  cbor : CborError → ReconError
  unsupported_version : ℕ → ReconError
  too_many_ranges : ℕ → ReconError
  too_many_ids : ℕ → ReconError
  unknown_mode : ℕ → ReconError
  unordered_ranges : ReconError
  incomplete_cover : ReconError
  unordered_ids : ReconError
  empty : ReconError

unfoldable pub settled : Message
settled = record { ranges = record { upper = infinity; mode = skip } ∷ [] }

abbrev is_skip : Mode → Bool
is_skip skip = true
is_skip _ = false

unfoldable pub all_skip : List Range → Bool
all_skip [] = true
all_skip (r ∷ rs) = is_skip r.mode && all_skip rs

unfoldable pub is_settled : Message → Bool
unfolding all_skip
is_settled m = all_skip m.ranges

unfoldable pub encode_payload : Mode → List ℕ
encode_payload skip = Encode.null
encode_payload (fingerprinted f) = Encode.bytes f
encode_payload (id_list ids) = Encode.array (map Encode.bytes ids)

unfoldable pub encode_range : Range → List ℕ
unfolding tag encode_payload
encode_range r =
    Encode.array (Encode.uint r.upper ∷ Encode.uint (tag r.mode) ∷ encode_payload r.mode ∷ [])

unfoldable pub encode : Message → List ℕ
unfolding encode_range
encode m = Encode.array (Encode.uint recon_version ∷ Encode.array (map encode_range m.ranges) ∷ [])

abbrev pub Decode : Type 0 → Type 0
Decode A = Method Reader ReconError A

-- Is there a last one, and is it not below?
abbrev pub is_unordered : Option ContentId → ContentId → Bool
is_unordered none id = false
is_unordered (some last) id = not (bytes_lt last id)

-- The loop over the ids of a range, with `n` left and the last one read.
unfoldable pub read_ids : ℕ → Option ContentId → Decode (List ContentId)
unfolding bytes_lt
read_ids zero last = pure []
read_ids (suc n) last = do
  id ← convert cbor (bytes_of 32)
  if is_unordered last id
      then fail unordered_ids
      else (do ids ← read_ids n (some id); pure (id ∷ ids))

unfoldable pub read_id_list : Decode Mode
unfolding read_ids
read_id_list = do
  count ← convert cbor array_header
  if ltb max_ids_per_range count
      then fail (too_many_ids count)
      else (do ids ← read_ids count none; pure (id_list ids))

abbrev no_payload : Option (List ℕ) → Decode Mode
no_payload none = pure skip
no_payload (some _) = fail (cbor (type_mismatch "null"))

unfoldable pub read_mode : ℕ → Decode Mode
unfolding read_id_list
read_mode t =
    if t == 0
    then (do payload ← convert cbor optional_bytes; no_payload payload)
    else if t == 1
    then (do f ← convert cbor (bytes_of 32); pure (fingerprinted f))
    else if t == 2
    then read_id_list
    else fail (unknown_mode t)

unfoldable pub decode_range : Decode Range
unfolding read_mode
decode_range = do
  convert cbor (array 3)
  upper ← convert cbor uint
  t ← convert cbor uint
  mode ← read_mode t
  pure (record { upper = upper; mode = mode })

abbrev pub is_not_above : Option ℕ → ℕ → Bool
is_not_above none upper = false
is_not_above (some previous) upper = leb upper previous

-- The loop over the ranges: what it has read, and the last upper bound.
unfoldable pub read_ranges : ℕ → Option ℕ → Decode (List Range × Option ℕ)
unfolding decode_range
read_ranges zero previous = pure ([], previous)
read_ranges (suc n) previous = do
  range ← decode_range
  if is_not_above previous range.upper
      then fail unordered_ranges
      else (do (ranges, last) ← read_ranges n (some range.upper); pure (range ∷ ranges, last))

abbrev reaches_infinity : Option ℕ → Bool
reaches_infinity none = false
reaches_infinity (some last) = last == infinity

unfoldable pub read_counted : ℕ → Decode Message
unfolding read_ranges
read_counted count =
    if count == 0
    then fail empty
    else if ltb max_ranges count
    then fail (too_many_ranges count)
    else (do
      (ranges, last) ← read_ranges count none
      if reaches_infinity last then pure (record { ranges = ranges }) else fail incomplete_cover)

unfoldable pub read_message : Decode Message
unfolding read_counted
read_message = do
  convert cbor (array 2)
  version ← convert cbor uint
  if version == recon_version
      then (do count ← convert cbor array_header; read_counted count)
      else fail (unsupported_version version)

unfoldable pub decode : List ℕ → Result ReconError Message
unfolding read_message
decode input = ((do m ← read_message; convert cbor finish; pure m) (new input)).0

-- `spans`: each range with where the one before it ends.
unfoldable pub spans_from : ℕ → List Range → List (ℕ × ℕ × Mode)
spans_from lower [] = []
spans_from lower (r ∷ rs) = (lower, r.upper, r.mode) ∷ spans_from r.upper rs

unfoldable pub spans : Message → List (ℕ × ℕ × Mode)
unfolding spans_from
spans m = spans_from 0 m.ranges
