-- ===== src/Frame/RoundTrip.antt =====
-- Frames of backend/wealdrelay/src/frame.rs: `decode` behind `encode`.
use wealdrelay.Base.{
  ℕ, ◌^◌, ◌≤◌, ◌<◌, ◌≡◌, refl, ap, arith, true, false, Option, some, List, [], ◌∷◌, ltb, length, ok,
  ok_or,
}
use wealdrelay.Cbor.Encode
use wealdrelay.Cbor.Compose.{
  Back, Back-lift, Back-convert, Back-bind, Back-end, Back-whole, Back-uint, Back-array,
  length-uint-pos, length-array-pos,
}
use wealdrelay.Frame.Tag.{
  FrameTag, as_u16, tag_connect, tag_connect_ack, tag_auth_challenge, tag_auth, tag_auth_ack,
  tag_access, tag_sub, tag_sub_ack, tag_recon, tag_push, tag_send, tag_send_ack, tag_blob, tag_bye,
  tag_error, tag_wrap, tag_handshake, tag_join, tag_drop, tag_invite, tag_live, tag_keys, tag_call,
  tag_media, tag_wake, from_u16_iff, cbor, unknown_tag, max_frame_bytes,
}
use wealdrelay.Frame.Body.{
  Frame, tag, body_fields, encode, connect, connect_ack, auth_challenge, auth, auth_ack, access,
  sub, sub_ack, recon, push, send, send_ack, blob, drop_before, bye, error, wrap, handshake, join,
  invite, live, keys, call, media, wake,
}
use wealdrelay.Frame.Decode.{read_body, tag_of, read_frame, decode, clamp_u16}
use wealdrelay.Frame.Fits.{Fits, byte_limit}
use wealdrelay.Frame.Bodies.{read_single-Back, read_group_number-Back, read_group_message-Back}
use wealdrelay.Frame.Fields.{
  read_connect-Back, read_connect_ack-Back, read_auth-Back, read_auth_ack-Back, read_recon-Back,
  read_call-Back, read_media-Back,
}
use wealdrelay.Frame.Forms.{read_keys-Back, read_error-Back}
use wealdrelay.Frame.Wake.{read_wake-Back}

as_u16-lt : (t : FrameTag) → as_u16 t < 2 ^ 16
unfolding as_u16
as_u16-lt tag_connect = omega arith
as_u16-lt tag_connect_ack = omega arith
as_u16-lt tag_auth_challenge = omega arith
as_u16-lt tag_auth = omega arith
as_u16-lt tag_auth_ack = omega arith
as_u16-lt tag_access = omega arith
as_u16-lt tag_sub = omega arith
as_u16-lt tag_sub_ack = omega arith
as_u16-lt tag_recon = omega arith
as_u16-lt tag_push = omega arith
as_u16-lt tag_send = omega arith
as_u16-lt tag_send_ack = omega arith
as_u16-lt tag_blob = omega arith
as_u16-lt tag_bye = omega arith
as_u16-lt tag_error = omega arith
as_u16-lt tag_wrap = omega arith
as_u16-lt tag_handshake = omega arith
as_u16-lt tag_join = omega arith
as_u16-lt tag_drop = omega arith
as_u16-lt tag_invite = omega arith
as_u16-lt tag_live = omega arith
as_u16-lt tag_keys = omega arith
as_u16-lt tag_call = omega arith
as_u16-lt tag_media = omega arith
as_u16-lt tag_wake = omega arith

byte_limit-le : (f : Frame) → byte_limit f ≤ max_frame_bytes
byte_limit-le (connect _ _ _) = omega arith
byte_limit-le (connect_ack _ _ _) = omega arith
byte_limit-le (auth_challenge _) = omega arith
byte_limit-le (auth _ _) = omega arith
byte_limit-le (auth_ack _ _ _ _ _) = omega arith
byte_limit-le (access _) = omega arith
byte_limit-le (sub _ _) = omega arith
byte_limit-le (sub_ack _ _) = omega arith
byte_limit-le (recon _ _) = omega arith
byte_limit-le (push _) = omega arith
byte_limit-le (send _) = omega arith
byte_limit-le (send_ack _ _) = omega arith
byte_limit-le (blob _) = omega arith
byte_limit-le (drop_before _) = omega arith
byte_limit-le (bye _) = omega arith
byte_limit-le (error _) = omega arith
byte_limit-le (wrap _) = omega arith
byte_limit-le (handshake _ _ _) = omega arith
byte_limit-le (join _) = omega arith
byte_limit-le (invite _) = omega arith
byte_limit-le (live _ _ _) = omega arith
byte_limit-le (keys _) = omega arith
byte_limit-le (call _ _ _ _ _) = omega arith
byte_limit-le (media _ _ _ _) = omega arith
byte_limit-le (wake _) = omega arith

module _ (parse_url : List ℕ → Option (List ℕ × Option (List ℕ))) where
  read_body-Back :
      (total : ℕ) (f : Frame)
      → total ≤ byte_limit f
      → Fits parse_url f
      → Back (read_body parse_url total (tag f)) f (Encode.array (body_fields f))
  unfolding read_body tag body_fields
  read_body-Back total (connect v gs at) few h = read_connect-Back v gs at h
  read_body-Back total (connect_ack v t m) few h = read_connect_ack-Back v t m h
  read_body-Back total (auth_challenge c) few h = read_single-Back auth_challenge c h
  read_body-Back total (auth k s) few h = read_auth-Back k s h
  read_body-Back total (auth_ack r w b a m) few h = read_auth_ack-Back r w b a m h
  read_body-Back total (access b) few h = read_single-Back access b h
  read_body-Back total (wrap b) few h = read_single-Back wrap b h
  read_body-Back total (join b) few h = read_single-Back join b h
  read_body-Back total (invite b) few h = read_single-Back invite b h
  read_body-Back total (handshake g s m) few (hg, hs, hm) =
      read_group_message-Back handshake g s m hg hs hm
  read_body-Back total (sub g n) few (hg, hn) = read_group_number-Back sub g n hg hn
  read_body-Back total (sub_ack g n) few (hg, hn) = read_group_number-Back sub_ack g n hg hn
  read_body-Back total (recon g p) few h = read_recon-Back g p h
  read_body-Back total (push e) few h = read_single-Back push e h
  read_body-Back total (send e) few h = read_single-Back send e h
  read_body-Back total (send_ack g n) few (hg, hn) = read_group_number-Back send_ack g n hg hn
  read_body-Back total (blob p) few h = read_single-Back blob p h
  read_body-Back total (drop_before p) few h = read_single-Back drop_before p h
  read_body-Back total (bye r) few h = read_single-Back bye r h
  read_body-Back total (live g e c) few (hg, he, hc) = read_group_message-Back live g e c hg he hc
  read_body-Back total (call c g e k b) few h = read_call-Back c g e k b h
  read_body-Back total (media c s q t) few h = read_media-Back c s q t h
  read_body-Back total (keys b) few h = read_keys-Back b h
  read_body-Back total (wake b) few h = read_wake-Back parse_url total b few h
  read_body-Back total (error e) few h = read_error-Back e h

  tag_of-as_u16 : (t : FrameTag) → tag_of (as_u16 t) ≡ some t
  unfolding tag_of
  tag_of-as_u16 t =
      let small : ltb (as_u16 t) (2 ^ 16) ≡ true = ground (arith, as_u16-lt t) in
      rw small ((from_u16_iff (as_u16 t) t).1 refl)

  read_frame-Back :
      (total : ℕ) (f : Frame)
      → total ≤ byte_limit f
      → Fits parse_url f
      → Back (read_frame parse_url total) f (encode f)
  unfolding read_frame encode Encode.concat
  read_frame-Back total f few h =
      let n = as_u16 (tag f) in
      Back-array cbor (Encode.uint n ∷ Encode.array (body_fields f) ∷ []) (omega arith)
        (omega (arith, length-uint-pos n, length-array-pos (body_fields f)))
        (Back-bind _ (Back-convert cbor (Back-uint n (omega (arith, as_u16-lt (tag f))))) (
          Back-bind _
            (Back-lift (ap (λ o. ok_or o (unknown_tag (clamp_u16 n))) (tag_of-as_u16 (tag f))))
            (Back-end (read_body-Back total f few h))))

  -- For any parser of urls: a frame of any of the 25 kinds, whose encoding is at most 2^20 + 4096
  -- bytes, or 1024 for a WAKE, and whose fields are in the ranges of their types and of the checks
  -- of the decoder, is decoded back from its encoding. The retry delay of an ERROR is absent or
  -- positive, its detail absent or non-empty.
  pub decode-encode_frame :
      (f : Frame)
      → Fits parse_url f
      → length (encode f) ≤ byte_limit f
      → decode parse_url (encode f) ≡ ok f
  unfolding decode
  decode-encode_frame f h few =
      let whole : ltb max_frame_bytes (length (encode f)) ≡ false =
        ground (arith, few, byte_limit-le f) in
      rw whole (Back-whole cbor (read_frame-Back (length (encode f)) f few h))
