-- ===== src/Frame/Fields.antt =====
-- The bodies of CONNECT, CONNECT_ACK, AUTH, AUTH_ACK, RECON, CALL and MEDIA in
-- backend/wealdrelay/src/frame.rs, read back.
use wealdrelay.Base.{
  ℕ, ◌^◌, ◌≤◌, ◌<◌, ◌≡◌, arith, false, List, [], ◌∷◌, ◌++◌, ltb, leb, not, ◌&&◌, length, map, All,
  IsByte, IsU64,
}
use wealdrelay.Cbor.Encode
use wealdrelay.Cbor.Typed.{u8, u16, u32}
use wealdrelay.Cbor.Compose.{
  Back, Back-pure, Back-convert, Back-bind, Back-uint, Back-narrowed, Back-bytes, Back-bytes_of,
  Back-array, Back-counted-then, length-uint-pos, length-bytes-pos, length-array-pos, length-map,
  bytes-pos,
}
use wealdrelay.Frame.Tag.{cbor}
use wealdrelay.Frame.Body.{connect, connect_ack, auth, auth_ack, recon, call, media, body_fields}
use wealdrelay.Frame.Decode.{
  read_connect, read_connect_ack, read_auth, read_auth_ack, read_recon, read_call, read_media,
}
use wealdrelay.Frame.Fits.{IsText, IsKey}
use wealdrelay.Frame.Decode.{protocol_version, call_id_bytes, stream_bytes}
use wealdrelay.Frame.Bodies.{read_groups-Back}

pub read_connect-Back :
    (version : ℕ) (groups : List (List ℕ)) (sent_at : ℕ)
    → (1 ≤ version) × (version < 2 ^ 16) × IsU64 (length groups) × All IsKey groups × IsU64 sent_at
    → Back read_connect
        (connect version groups sent_at)
        (Encode.array (body_fields (connect version groups sent_at)))
unfolding read_connect body_fields Encode.concat u16
read_connect-Back version groups sent_at (low, high, count, each, at) =
    let items = map Encode.bytes groups in
    let n : length items ≡ length groups = length-map Encode.bytes groups in
    let spoken : ltb version 1 ≡ false = ground (arith, low) in
    Back-array cbor (Encode.uint version ∷ Encode.array items ∷ Encode.uint sent_at ∷ [])
      (omega arith)
      (omega (arith, length-uint-pos version, length-array-pos items, length-uint-pos sent_at))
      (Back-bind _ (Back-convert cbor (Back-narrowed _ version (omega (arith, high)) high)) (
        rw spoken (
          Back-counted-then cbor _ items (Encode.uint sent_at ++ []) (omega (arith, n, count))
            (bytes-pos groups)
            (rw n (
              Back-bind _ (read_groups-Back groups each) (
                Back-bind _ (Back-convert cbor (Back-uint sent_at at))
                  (Back-pure (connect version groups sent_at))))))))

pub read_connect_ack-Back :
    (version server_time min_enc : ℕ)
    → (1 ≤ version) × (version ≤ protocol_version) × IsU64 server_time × IsByte min_enc
    → Back read_connect_ack
        (connect_ack version server_time min_enc)
        (Encode.array (body_fields (connect_ack version server_time min_enc)))
unfolding read_connect_ack body_fields Encode.concat u8 u16
read_connect_ack-Back version server_time min_enc (low, high, time, enc) =
    let wide : version < 2 ^ 16 = omega (arith, high) in
    let spoken : not (leb 1 version && leb version 4) ≡ false = ground (arith, low, high) in
    Back-array cbor (Encode.uint version ∷ Encode.uint server_time ∷ Encode.uint min_enc ∷ [])
      (omega arith)
      (omega (arith, length-uint-pos version, length-uint-pos server_time, length-uint-pos min_enc))
      (Back-bind _ (Back-convert cbor (Back-narrowed _ version (omega (arith, wide)) wide)) (
        rw spoken (
          Back-bind _ (Back-convert cbor (Back-uint server_time time)) (
            Back-bind _ (Back-convert cbor (Back-narrowed _ min_enc (omega (arith, enc)) enc))
              (Back-pure (connect_ack version server_time min_enc))))))

pub read_auth-Back :
    (device_key signature : List ℕ)
    → IsKey device_key × (length signature ≡ 64)
    → Back read_auth
        (auth device_key signature)
        (Encode.array (body_fields (auth device_key signature)))
unfolding read_auth body_fields Encode.concat
read_auth-Back device_key signature (hk, hs) =
    Back-array cbor (Encode.bytes device_key ∷ Encode.bytes signature ∷ []) (omega arith)
      (omega (arith, length-bytes-pos device_key, length-bytes-pos signature))
      (Back-bind _ (Back-convert cbor (Back-bytes_of 32 device_key (omega arith) hk)) (
        Back-bind _ (Back-convert cbor (Back-bytes_of 64 signature (omega arith) hs))
          (Back-pure (auth device_key signature))))

pub read_auth_ack-Back :
    (remaining write_mode : ℕ) (digest : List ℕ) (access_set min_enc : ℕ)
    → (remaining < 2 ^ 32) × IsByte write_mode × IsText digest × IsByte access_set × IsByte min_enc
    → Back read_auth_ack
        (auth_ack remaining write_mode digest access_set min_enc)
        (Encode.array (body_fields (auth_ack remaining write_mode digest access_set min_enc)))
unfolding read_auth_ack body_fields Encode.concat u8 u32
read_auth_ack-Back remaining write_mode digest access_set min_enc (hr, hw, hd, ha, hm) =
    Back-array cbor
      (Encode.uint remaining
        ∷ Encode.uint write_mode
        ∷ Encode.bytes digest
        ∷ Encode.uint access_set
        ∷ Encode.uint min_enc
        ∷ [])
      (omega arith)
      (omega (
        arith,
        length-uint-pos remaining,
        length-uint-pos write_mode,
        length-bytes-pos digest,
        length-uint-pos access_set,
        length-uint-pos min_enc,
      ))
      (Back-bind _ (Back-convert cbor (Back-narrowed _ remaining (omega (arith, hr)) hr)) (
        Back-bind _ (Back-convert cbor (Back-narrowed _ write_mode (omega (arith, hw)) hw)) (
          Back-bind _ (Back-convert cbor (Back-bytes digest hd)) (
            Back-bind _ (Back-convert cbor (Back-narrowed _ access_set (omega (arith, ha)) ha)) (
              Back-bind _ (Back-convert cbor (Back-narrowed _ min_enc (omega (arith, hm)) hm))
                (Back-pure (auth_ack remaining write_mode digest access_set min_enc)))))))

pub read_recon-Back :
    (group payload : List ℕ)
    → IsKey group × IsText payload
    → Back read_recon (recon group payload) (Encode.array (body_fields (recon group payload)))
unfolding read_recon body_fields Encode.concat
read_recon-Back group payload (hg, hp) =
    Back-array cbor (Encode.bytes group ∷ Encode.bytes payload ∷ []) (omega arith)
      (omega (arith, length-bytes-pos group, length-bytes-pos payload))
      (Back-bind _ (Back-convert cbor (Back-bytes_of 32 group (omega arith) hg))
        (Back-bind _ (Back-convert cbor (Back-bytes payload hp)) (Back-pure (recon group payload))))

pub read_call-Back :
    (call_id group : List ℕ) (epoch kind : ℕ) (body : List ℕ)
    → (length call_id ≡ call_id_bytes) × IsKey group × IsU64 epoch × IsByte kind × IsText body
    → Back read_call
        (call call_id group epoch kind body)
        (Encode.array (body_fields (call call_id group epoch kind body)))
unfolding read_call body_fields Encode.concat u8
read_call-Back call_id group epoch kind body (hc, hg, he, hk, hb) =
    Back-array cbor
      (Encode.bytes call_id
        ∷ Encode.bytes group
        ∷ Encode.uint epoch
        ∷ Encode.uint kind
        ∷ Encode.bytes body
        ∷ [])
      (omega arith)
      (omega (
        arith,
        length-bytes-pos call_id,
        length-bytes-pos group,
        length-uint-pos epoch,
        length-uint-pos kind,
        length-bytes-pos body,
      ))
      (Back-bind _ (Back-convert cbor (Back-bytes_of 16 call_id (omega arith) hc)) (
        Back-bind _ (Back-convert cbor (Back-bytes_of 32 group (omega arith) hg)) (
          Back-bind _ (Back-convert cbor (Back-uint epoch he)) (
            Back-bind _ (Back-convert cbor (Back-narrowed _ kind (omega (arith, hk)) hk)) (
              Back-bind _ (Back-convert cbor (Back-bytes body hb))
                (Back-pure (call call_id group epoch kind body)))))))

pub read_media-Back :
    (call_id stream : List ℕ) (seq : ℕ) (ct : List ℕ)
    → (length call_id ≡ call_id_bytes) × (length stream ≡ stream_bytes) × IsU64 seq × IsText ct
    → Back read_media
        (media call_id stream seq ct)
        (Encode.array (body_fields (media call_id stream seq ct)))
unfolding read_media body_fields Encode.concat
read_media-Back call_id stream seq ct (hc, hs, hq, ht) =
    Back-array cbor
      (Encode.bytes call_id ∷ Encode.bytes stream ∷ Encode.uint seq ∷ Encode.bytes ct ∷ [])
      (omega arith)
      (omega (
        arith,
        length-bytes-pos call_id,
        length-bytes-pos stream,
        length-uint-pos seq,
        length-bytes-pos ct,
      ))
      (Back-bind _ (Back-convert cbor (Back-bytes_of 16 call_id (omega arith) hc)) (
        Back-bind _ (Back-convert cbor (Back-bytes_of 4 stream (omega arith) hs)) (
          Back-bind _ (Back-convert cbor (Back-uint seq hq)) (
            Back-bind _ (Back-convert cbor (Back-bytes ct ht))
              (Back-pure (media call_id stream seq ct))))))
