-- ===== src/Frame/Decode.antt =====
-- The decoder of backend/wealdrelay/src/frame.rs. What the url crate parses a text into, a scheme
-- and perhaps a host, is the parameter `parse_url`.
pub mod Read
unfoldable pub use Read.*
use wealdrelay.Base.{
  ℕ, zero, suc, ◌-◌, ◌^◌, Bool, true, false, not, Option, none, some, List, [], ◌∷◌, ltb, leb, ◌==◌,
  ◌&&◌, ◌||◌, if◌then◌else◌, length, bytes_eq, Result, err, ok_or, Method, ◌>>=◌, ◌>>◌, pure, fail,
  lift, convert,
}
use wealdrelay.Cbor.Reader.{Reader, new, finish}
use wealdrelay.Cbor.Typed.{uint, u8, u16, u32, bytes, bytes_of, array, array_header, boolean, text}
use wealdrelay.Push.Category.{is_valid_mask}
use wealdrelay.Frame.Code.{ErrorCode, class, class_str, code_str, all_codes}
use wealdrelay.Frame.Tag.{
  FrameTag, from_u16, max_frame_bytes, max_wake_bytes, FrameDecodeError, cbor, too_large,
  too_large_wake, unknown_tag, unsupported_version, bad_field, bad_wake_field, wake_shape,
  tag_connect, tag_connect_ack, tag_auth_challenge, tag_auth, tag_auth_ack, tag_access, tag_sub,
  tag_sub_ack, tag_recon, tag_push, tag_send, tag_send_ack, tag_blob, tag_bye, tag_error, tag_wrap,
  tag_handshake, tag_join, tag_drop, tag_invite, tag_live, tag_keys, tag_call, tag_media, tag_wake,
}
use wealdrelay.Frame.Body.{
  Frame, WakeBody, KeysBody, register, registered, clear, cleared, query, capability, publish,
  published, fetch, bundles, no_keys, connect, connect_ack, auth_challenge, auth, auth_ack, access,
  sub, sub_ack, recon, push, send, send_ack, blob, drop_before, bye, error, wrap, handshake, join,
  invite, live, keys, call, media, wake,
}

-- `u16::try_from(raw).ok().and_then(FrameTag::from_u16)`
unfoldable pub tag_of : ℕ → Option FrameTag
unfolding from_u16
tag_of raw = if ltb raw (2 ^ 16) then from_u16 raw else none

-- `u16::try_from(raw).unwrap_or(u16::MAX)`
abbrev pub clamp_u16 : ℕ → ℕ
clamp_u16 raw = if ltb raw (2 ^ 16) then raw else 2 ^ 16 - 1

-- The hosts that `http` may name.
abbrev pub loopback_hosts : List (List ℕ)
loopback_hosts =
    (b'1' ∷ b'2' ∷ b'7' ∷ b'.' ∷ b'0' ∷ b'.' ∷ b'0' ∷ b'.' ∷ b'1' ∷ [])
    ∷ (b'l' ∷ b'o' ∷ b'c' ∷ b'a' ∷ b'l' ∷ b'h' ∷ b'o' ∷ b's' ∷ b't' ∷ [])
    ∷ (b':' ∷ b':' ∷ b'1' ∷ [])
    ∷ (b'[' ∷ b':' ∷ b':' ∷ b'1' ∷ b']' ∷ [])
    ∷ []

unfoldable pub is_loopback : List ℕ → List (List ℕ) → Bool
is_loopback host [] = false
is_loopback host (h ∷ hs) = bytes_eq host h || is_loopback host hs

unfoldable pub is_acceptable_place : List ℕ → Option (List ℕ) → Bool
unfolding is_loopback
is_acceptable_place scheme host =
    if bytes_eq scheme (b'h' ∷ b't' ∷ b't' ∷ b'p' ∷ b's' ∷ [])
    then true
    else if bytes_eq scheme (b'h' ∷ b't' ∷ b't' ∷ b'p' ∷ [])
    then elim host [ none ↦ false | some h ↦ is_loopback h loopback_hosts ]
    else false

module _ (parse_url : List ℕ → Option (List ℕ × Option (List ℕ))) where
  unfoldable pub is_acceptable_register_url : List ℕ → Bool
  unfolding is_acceptable_place
  is_acceptable_register_url value = if length value == 0 then true else elim (parse_url value) [
    | none ↦ false
    | some (scheme, host) ↦ is_acceptable_place scheme host
  ]

  unfoldable pub read_capability : Decode WakeBody
  unfolding wake_shape is_acceptable_register_url
  read_capability = do
    convert (λ e. wake_shape e "capability") (array 2)
    enabled ← convert (λ e. wake_shape e "enabled") boolean
    register_url ← convert (λ e. wake_shape e "register_url") text
    if ltb max_register_url_bytes (length register_url)
          || not (is_acceptable_register_url register_url)
        then fail (bad_wake_field "register_url")
        else pure (capability enabled register_url)

  unfoldable pub read_wake_body : ℕ → Decode WakeBody
  unfolding read_register read_capability wake_shape
  read_wake_body form =
      if form == 1
      then read_register
      else if form == 2
      then (do
        convert (λ e. wake_shape e "registered") (array 1)
        expires_at ← convert (λ e. wake_shape e "expires_at") uint
        pure (registered expires_at))
      else if leb 3 form && leb form 5
      then (do
        convert (λ e. wake_shape e "fields") (array 0)
        pure (if form == 3 then clear else if form == 4 then cleared else query))
      else if form == 6
      then read_capability
      else fail (bad_field "form")

  unfoldable pub read_wake : ℕ → Decode Frame
  unfolding read_wake_body wake_shape
  read_wake total = if ltb max_wake_bytes total then fail (too_large_wake total) else (do
    convert (λ e. wake_shape e "wake") (array 2)
    form ← convert (λ e. wake_shape e "form") u8
    body ← read_wake_body form
    pure (wake body))

  -- The body of a frame of `total` bytes.
  unfoldable pub read_body : ℕ → FrameTag → Decode Frame
  unfolding read_connect read_connect_ack read_single read_group_number read_group_message read_auth
      read_auth_ack read_recon read_call read_media read_keys read_error read_wake
  read_body total tag_connect = read_connect
  read_body total tag_connect_ack = read_connect_ack
  read_body total tag_auth_challenge = read_single auth_challenge
  read_body total tag_auth = read_auth
  read_body total tag_auth_ack = read_auth_ack
  read_body total tag_access = read_single access
  read_body total tag_wrap = read_single wrap
  read_body total tag_join = read_single join
  read_body total tag_invite = read_single invite
  read_body total tag_handshake = read_group_message handshake
  read_body total tag_sub = read_group_number sub
  read_body total tag_sub_ack = read_group_number sub_ack
  read_body total tag_recon = read_recon
  read_body total tag_push = read_single push
  read_body total tag_send = read_single send
  read_body total tag_send_ack = read_group_number send_ack
  read_body total tag_blob = read_single blob
  read_body total tag_drop = read_single drop_before
  read_body total tag_bye = read_single bye
  read_body total tag_live = read_group_message live
  read_body total tag_call = read_call
  read_body total tag_media = read_media
  read_body total tag_keys = read_keys
  read_body total tag_wake = read_wake total
  read_body total tag_error = read_error

  unfoldable pub read_frame : ℕ → Decode Frame
  unfolding read_body tag_of
  read_frame total = do
    convert cbor (array 2)
    raw ← convert cbor uint
    t ← lift (ok_or (tag_of raw) (unknown_tag (clamp_u16 raw)))
    read_body total t

  unfoldable pub decode : List ℕ → Result FrameDecodeError Frame
  unfolding read_frame
  decode input =
      if ltb max_frame_bytes (length input)
      then err (too_large (length input))
      else ((do f ← read_frame (length input); convert cbor finish; pure f) (new input)).0
