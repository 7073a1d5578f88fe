-- ===== src/Frame/Tag.antt =====
-- Frame tags and decoding errors of backend/wealdrelay/src/frame.rs.
use Prim.Native.String.{String}
use mathlib.Core.Path.{subst}
use wealdrelay.Base.{
  ℕ, ◌+◌, ◌^◌, ◌≡◌, ◌↔◌, refl, arith, Option, none, some, List, [], ◌∷◌, ◌==◌, if◌then◌else◌,
}
use wealdrelay.Cbor.Reader.{
  CborError, non_canonical_integer, reserved_additional_info, trailing_bytes,
}
use wealdrelay.Frame.Code.{
  ErrorCode, envelope_too_large, noncanonical_cbor, malformed_header, push_handle_malformed,
  protocol_unsupported,
}

pub data FrameTag : Type 0 where
  tag_connect tag_connect_ack tag_auth_challenge tag_auth tag_auth_ack tag_access tag_sub
        tag_sub_ack tag_recon tag_push tag_send tag_send_ack tag_blob tag_bye tag_error tag_wrap
        tag_handshake tag_join tag_drop tag_invite tag_live tag_keys tag_call tag_media tag_wake :
      FrameTag

-- The discriminants of the `repr(u16)`.
unfoldable pub as_u16 : FrameTag → ℕ
as_u16 tag_connect = 1
as_u16 tag_connect_ack = 2
as_u16 tag_auth_challenge = 3
as_u16 tag_auth = 4
as_u16 tag_auth_ack = 5
as_u16 tag_access = 6
as_u16 tag_sub = 7
as_u16 tag_sub_ack = 8
as_u16 tag_recon = 9
as_u16 tag_push = 10
as_u16 tag_send = 11
as_u16 tag_send_ack = 12
as_u16 tag_blob = 13
as_u16 tag_bye = 14
as_u16 tag_error = 15
as_u16 tag_wrap = 16
as_u16 tag_handshake = 17
as_u16 tag_join = 18
as_u16 tag_drop = 19
as_u16 tag_invite = 20
as_u16 tag_live = 21
as_u16 tag_keys = 22
as_u16 tag_call = 23
as_u16 tag_media = 24
as_u16 tag_wake = 25

unfoldable pub from_u16 : ℕ → Option FrameTag
from_u16 value =
    if value == 1
    then some tag_connect
    else if value == 2
    then some tag_connect_ack
    else if value == 3
    then some tag_auth_challenge
    else if value == 4
    then some tag_auth
    else if value == 5
    then some tag_auth_ack
    else if value == 6
    then some tag_access
    else if value == 7
    then some tag_sub
    else if value == 8
    then some tag_sub_ack
    else if value == 9
    then some tag_recon
    else if value == 10
    then some tag_push
    else if value == 11
    then some tag_send
    else if value == 12
    then some tag_send_ack
    else if value == 13
    then some tag_blob
    else if value == 14
    then some tag_bye
    else if value == 15
    then some tag_error
    else if value == 16
    then some tag_wrap
    else if value == 17
    then some tag_handshake
    else if value == 18
    then some tag_join
    else if value == 19
    then some tag_drop
    else if value == 20
    then some tag_invite
    else if value == 21
    then some tag_live
    else if value == 22
    then some tag_keys
    else if value == 23
    then some tag_call
    else if value == 24
    then some tag_media
    else if value == 25
    then some tag_wake
    else none

unfoldable pub all_tags : List FrameTag
all_tags =
    tag_connect ∷ tag_connect_ack ∷ tag_auth_challenge ∷ tag_auth ∷ tag_auth_ack ∷ tag_access
    ∷ tag_sub ∷ tag_sub_ack ∷ tag_recon ∷ tag_push ∷ tag_send ∷ tag_send_ack ∷ tag_blob ∷ tag_bye
    ∷ tag_error ∷ tag_wrap ∷ tag_handshake ∷ tag_join ∷ tag_drop ∷ tag_invite ∷ tag_live ∷ tag_keys
    ∷ tag_call ∷ tag_media ∷ tag_wake ∷ []

abbrev pub max_frame_bytes : ℕ
max_frame_bytes = 2 ^ 20 + 4096

abbrev pub max_wake_bytes : ℕ
max_wake_bytes = 1024

pub data FrameDecodeError : Type 0 where
  too_large : ℕ → FrameDecodeError
  cbor : CborError → FrameDecodeError
  unknown_tag : ℕ → FrameDecodeError
  unsupported_version : ℕ → FrameDecodeError
  bad_field : String → FrameDecodeError
  bad_wake_field : String → FrameDecodeError
  too_large_wake : ℕ → FrameDecodeError

unfoldable pub code : FrameDecodeError → ErrorCode
code (too_large _) = envelope_too_large
code (cbor _) = noncanonical_cbor
code (unknown_tag _) = malformed_header
code (bad_field _) = malformed_header
code (bad_wake_field _) = push_handle_malformed
code (too_large_wake _) = envelope_too_large
code (unsupported_version _) = protocol_unsupported

unfoldable pub wake_shape : CborError → String → FrameDecodeError
wake_shape non_canonical_integer field = cbor non_canonical_integer
wake_shape (reserved_additional_info info) field = cbor (reserved_additional_info info)
wake_shape (trailing_bytes n) field = cbor (trailing_bytes n)
wake_shape _ field = bad_field field

from_u16-as_u16 : (t : FrameTag) → from_u16 (as_u16 t) ≡ some t
unfolding from_u16 as_u16
from_u16-as_u16 tag_connect = refl
from_u16-as_u16 tag_connect_ack = refl
from_u16-as_u16 tag_auth_challenge = refl
from_u16-as_u16 tag_auth = refl
from_u16-as_u16 tag_auth_ack = refl
from_u16-as_u16 tag_access = refl
from_u16-as_u16 tag_sub = refl
from_u16-as_u16 tag_sub_ack = refl
from_u16-as_u16 tag_recon = refl
from_u16-as_u16 tag_push = refl
from_u16-as_u16 tag_send = refl
from_u16-as_u16 tag_send_ack = refl
from_u16-as_u16 tag_blob = refl
from_u16-as_u16 tag_bye = refl
from_u16-as_u16 tag_error = refl
from_u16-as_u16 tag_wrap = refl
from_u16-as_u16 tag_handshake = refl
from_u16-as_u16 tag_join = refl
from_u16-as_u16 tag_drop = refl
from_u16-as_u16 tag_invite = refl
from_u16-as_u16 tag_live = refl
from_u16-as_u16 tag_keys = refl
from_u16-as_u16 tag_call = refl
from_u16-as_u16 tag_media = refl
from_u16-as_u16 tag_wake = refl

as_u16-from_u16 : (v : ℕ) (t : FrameTag) → from_u16 v ≡ some t → as_u16 t ≡ v
unfolding from_u16 as_u16
as_u16-from_u16 v t h = ground arith

-- A number is read as a frame tag exactly when it is the discriminant of that tag.
pub from_u16_iff : (v : ℕ) (t : FrameTag) → (from_u16 v ≡ some t) ↔ (as_u16 t ≡ v)
from_u16_iff v t =
    (as_u16-from_u16 v t, λ e. subst (λ n. from_u16 n ≡ some t) e (from_u16-as_u16 t))
