-- ===== src/Negentropy/Message/RoundTrip.antt =====
-- RECON messages of backend/wealdrelay/src/negentropy/mod.rs: `decode` behind `encode`.
use wealdrelay.Base.{
  ℕ, ◌^◌, ◌≤◌, ◌<◌, ◌≡◌, arith, false, Option, none, some, List, [], ◌∷◌, ltb, ◌==◌, length, map,
  All, ok,
}
use wealdrelay.Cbor.Encode
use wealdrelay.Cbor.Compose.{
  Back, Back-pure, Back-convert, Back-bind, Back-last, Back-end, Back-map, Back-whole, Back-uint,
  Back-bytes_of, Back-array, Back-counted, Back-null, length-uint-pos, length-bytes-pos,
  length-array-pos, length-map, bytes-pos,
}
use wealdrelay.Negentropy.Items.{ContentId}
use wealdrelay.Negentropy.Ids.{Ascends}
use wealdrelay.Negentropy.Message.{
  Mode, skip, fingerprinted, id_list, Range, Message, infinity, max_ranges, max_ids_per_range,
  recon_version, tag, encode_payload, encode_range, encode, read_ids, read_id_list, read_mode,
  decode_range, read_ranges, read_counted, read_message, decode, cbor, no_payload,
}
use wealdrelay.Negentropy.Message.Valid.{IsId, IsMode, IsRange, Reaches, IsValid}

read_ids-Back :
    (ids : List ContentId) (last : Option ContentId)
    → All IsId ids
    → Ascends last ids
    → Back (read_ids (length ids) last) ids (Encode.concat (map Encode.bytes ids))
unfolding read_ids Encode.concat
read_ids-Back [] last h up = Back-pure []
read_ids-Back (a ∷ ids) last h up =
    Back-bind _ (Back-convert cbor (Back-bytes_of 32 a (omega arith) h.0))
      (rw up.0 (Back-map (λ rest. a ∷ rest) (read_ids-Back ids (some a) h.1 up.1)))

read_id_list-Back :
    (ids : List ContentId)
    → IsMode (id_list ids)
    → Back read_id_list (id_list ids) (Encode.array (map Encode.bytes ids))
unfolding read_id_list
read_id_list-Back ids h =
    let items = map Encode.bytes ids in
    let n : length items ≡ length ids = length-map Encode.bytes ids in
    let few : ltb max_ids_per_range (length ids) ≡ false = ground (arith, h.0) in
    Back-counted cbor _ items (omega (arith, n, h.0)) (bytes-pos ids)
      (rw n (rw few (Back-map id_list (read_ids-Back ids none h.1 h.2))))

read_mode-Back :
    (mode : Mode) → IsMode mode → Back (read_mode (tag mode)) mode (encode_payload mode)
unfolding read_mode tag encode_payload
read_mode-Back skip h = Back-last no_payload (Back-convert cbor Back-null) (Back-pure skip)
read_mode-Back (fingerprinted f) h =
    Back-map fingerprinted (Back-convert cbor (Back-bytes_of 32 f (omega arith) h))
read_mode-Back (id_list ids) h = read_id_list-Back ids h

payload-pos : (mode : Mode) → 1 ≤ length (encode_payload mode)
unfolding encode_payload
payload-pos skip = omega arith
payload-pos (fingerprinted f) = length-bytes-pos f
payload-pos (id_list ids) = length-array-pos (map Encode.bytes ids)

tag-lt : (mode : Mode) → tag mode < 2 ^ 64
unfolding tag
tag-lt skip = omega arith
tag-lt (fingerprinted f) = omega arith
tag-lt (id_list ids) = omega arith

decode_range-Back : (r : Range) → IsRange r → Back decode_range r (encode_range r)
unfolding decode_range encode_range Encode.concat
decode_range-Back r h =
    let t = tag r.mode in
    let small : t < 2 ^ 64 = tag-lt r.mode in
    Back-array cbor (Encode.uint r.upper ∷ Encode.uint t ∷ encode_payload r.mode ∷ []) (omega arith)
      (omega (arith, length-uint-pos r.upper, length-uint-pos t, payload-pos r.mode))
      (Back-bind _ (Back-convert cbor (Back-uint r.upper h.0)) (
        Back-bind _ (Back-convert cbor (Back-uint t small))
          (Back-bind _ (read_mode-Back r.mode h.1) (Back-pure r))))

read_ranges-Back :
    (end : ℕ) (ranges : List Range) (previous : Option ℕ)
    → All IsRange ranges
    → Reaches previous end ranges
    → Back
        (read_ranges (length ranges) previous)
        (ranges, some end)
        (Encode.concat (map encode_range ranges))
unfolding read_ranges Encode.concat
read_ranges-Back end [] previous h c = rw c (Back-pure ([], some end))
read_ranges-Back end (r ∷ rs) previous h c =
    Back-bind _ (decode_range-Back r h.0)
      (rw c.0 (Back-map (λ p. (r ∷ p.0, p.1)) (read_ranges-Back end rs (some r.upper) h.1 c.1)))

ranges-pos : (ranges : List Range) → All (λ x. 1 ≤ length x) (map encode_range ranges)
unfolding encode_range
ranges-pos [] = tt
ranges-pos (r ∷ rs) = (length-array-pos _, ranges-pos rs)

read_counted-Back :
    (m : Message)
    → IsValid m
    → Back
        (read_counted (length (map encode_range m.ranges)))
        m
        (Encode.concat (map encode_range m.ranges))
unfolding read_counted
read_counted-Back m v =
    let n : length (map encode_range m.ranges) ≡ length m.ranges =
      length-map encode_range m.ranges in
    let some_of_them : (length m.ranges == 0) ≡ false = nonempty m.ranges v.cover in
    let few : ltb max_ranges (length m.ranges) ≡ false = ground (arith, v.few) in
    rw n (
      rw some_of_them (
        rw few
          (Back-last _ (read_ranges-Back infinity m.ranges none v.each v.cover) (Back-pure m))))
  where
    nonempty : (rs : List Range) → Reaches none infinity rs → (length rs == 0) ≡ false
    nonempty [] c = cc
    nonempty (r ∷ rs) c = ground arith

read_message-Back : (m : Message) → IsValid m → Back read_message m (encode m)
unfolding read_message encode Encode.concat
read_message-Back m v =
    let body = map encode_range m.ranges in
    let n : length body ≡ length m.ranges = length-map encode_range m.ranges in
    Back-array cbor (Encode.uint recon_version ∷ Encode.array body ∷ []) (omega arith)
      (omega (arith, length-uint-pos recon_version, length-array-pos body))
      (Back-bind _ (Back-convert cbor (Back-uint recon_version (omega arith))) (
        Back-end (
          Back-counted cbor read_counted body (omega (arith, n, v.few)) (ranges-pos m.ranges)
            (read_counted-Back m v))))

-- A message of at most 1024 ranges, whose upper bounds rise strictly to 2^64 - 1, whose
-- fingerprints and ids are 32 bytes and whose id lists ascend without repetition and have at most
-- 4096 ids each, is decoded back from its encoding.
pub decode-encode_recon : (m : Message) → IsValid m → decode (encode m) ≡ ok m
unfolding decode
decode-encode_recon m v = Back-whole cbor (read_message-Back m v)
