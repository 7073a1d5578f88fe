-- ===== src/Frame/Body.antt =====
-- The frames of backend/wealdrelay/src/frame.rs and their encoding.
use wealdrelay.Base.{ℕ, ◌+◌, Bool, List, [], ◌∷◌, length, map}
use mathlib.Core.Option
use wealdrelay.Cbor.Encode
use wealdrelay.Frame.Code.{FrameError, class, class_str, code_str}
use wealdrelay.Frame.Tag.{
  FrameTag, as_u16, tag_connect, tag_connect_ack, tag_auth_challenge, tag_auth, tag_auth_ack,
  tag_access, tag_sub, tag_sub_ack, tag_recon, tag_push, tag_send, tag_send_ack, tag_blob, tag_bye,
  tag_error, tag_wrap, tag_handshake, tag_join, tag_drop, tag_invite, tag_live, tag_keys, tag_call,
  tag_media, tag_wake,
}

pub data WakeBody : Type 0 where
  register : List ℕ → ℕ → ℕ → WakeBody
  registered : ℕ → WakeBody
  clear cleared query : WakeBody
  capability : Bool → List ℕ → WakeBody

pub data KeysBody : Type 0 where
  publish : List (List ℕ) → KeysBody
  published : ℕ → KeysBody
  fetch : List ℕ → ℕ → KeysBody
  bundles : List (List ℕ) → KeysBody
  no_keys : KeysBody

-- Each variant with its fields in the order of the source.
pub data Frame : Type 0 where
  connect : ℕ → List (List ℕ) → ℕ → Frame
  connect_ack : ℕ → ℕ → ℕ → Frame
  auth_challenge : List ℕ → Frame
  auth : List ℕ → List ℕ → Frame
  auth_ack : ℕ → ℕ → List ℕ → ℕ → ℕ → Frame
  access : List ℕ → Frame
  sub : List ℕ → ℕ → Frame
  sub_ack : List ℕ → ℕ → Frame
  recon : List ℕ → List ℕ → Frame
  push : List ℕ → Frame
  send : List ℕ → Frame
  send_ack : List ℕ → ℕ → Frame
  blob : List ℕ → Frame
  drop_before : List ℕ → Frame
  bye : List ℕ → Frame
  error : FrameError → Frame
  wrap : List ℕ → Frame
  handshake : List ℕ → ℕ → List ℕ → Frame
  join : List ℕ → Frame
  invite : List ℕ → Frame
  live : List ℕ → ℕ → List ℕ → Frame
  keys : KeysBody → Frame
  call : List ℕ → List ℕ → ℕ → ℕ → List ℕ → Frame
  media : List ℕ → List ℕ → ℕ → List ℕ → Frame
  wake : WakeBody → Frame

unfoldable pub wake_form : WakeBody → ℕ
wake_form (register _ _ _) = 1
wake_form (registered _) = 2
wake_form clear = 3
wake_form cleared = 4
wake_form query = 5
wake_form (capability _ _) = 6

unfoldable pub keys_form : KeysBody → ℕ
keys_form (publish _) = 1
keys_form (published _) = 2
keys_form (fetch _ _) = 3
keys_form (bundles _) = 4
keys_form no_keys = 5

unfoldable pub tag : Frame → FrameTag
tag (connect _ _ _) = tag_connect
tag (connect_ack _ _ _) = tag_connect_ack
tag (auth_challenge _) = tag_auth_challenge
tag (auth _ _) = tag_auth
tag (auth_ack _ _ _ _ _) = tag_auth_ack
tag (access _) = tag_access
tag (wrap _) = tag_wrap
tag (handshake _ _ _) = tag_handshake
tag (join _) = tag_join
tag (invite _) = tag_invite
tag (sub _ _) = tag_sub
tag (sub_ack _ _) = tag_sub_ack
tag (recon _ _) = tag_recon
tag (push _) = tag_push
tag (send _) = tag_send
tag (send_ack _ _) = tag_send_ack
tag (blob _) = tag_blob
tag (drop_before _) = tag_drop
tag (bye _) = tag_bye
tag (live _ _ _) = tag_live
tag (keys _) = tag_keys
tag (call _ _ _ _ _) = tag_call
tag (media _ _ _ _) = tag_media
tag (wake _) = tag_wake
tag (error _) = tag_error

unfoldable pub keys_fields : KeysBody → List (List ℕ)
keys_fields (publish packages) = map Encode.bytes packages
keys_fields (bundles packages) = map Encode.bytes packages
keys_fields (published remaining) = Encode.uint remaining ∷ []
keys_fields (fetch device count) = Encode.bytes device ∷ Encode.uint count ∷ []
keys_fields no_keys = []

unfoldable pub wake_fields : WakeBody → List (List ℕ)
wake_fields (register handle categories expires_at) =
    Encode.bytes handle ∷ Encode.uint categories ∷ Encode.uint expires_at ∷ []
wake_fields (registered expires_at) = Encode.uint expires_at ∷ []
wake_fields clear = []
wake_fields cleared = []
wake_fields query = []
wake_fields (capability enabled register_url) =
    Encode.boolean enabled ∷ Encode.text register_url ∷ []

-- The items of the body of a frame.
unfoldable pub body_fields : Frame → List (List ℕ)
unfolding keys_fields wake_fields wake_form keys_form class class_str code_str
body_fields (connect version groups sent_at) =
    Encode.uint version ∷ Encode.array (map Encode.bytes groups) ∷ Encode.uint sent_at ∷ []
body_fields (connect_ack version server_time min_enc) =
    Encode.uint version ∷ Encode.uint server_time ∷ Encode.uint min_enc ∷ []
body_fields (auth_challenge challenge) = Encode.bytes challenge ∷ []
body_fields (auth device_key signature) = Encode.bytes device_key ∷ Encode.bytes signature ∷ []
body_fields (auth_ack remaining write_mode build_digest access_set min_enc) =
    Encode.uint remaining
    ∷ Encode.uint write_mode
    ∷ Encode.bytes build_digest
    ∷ Encode.uint access_set
    ∷ Encode.uint min_enc
    ∷ []
body_fields (access body) = Encode.bytes body ∷ []
body_fields (wrap body) = Encode.bytes body ∷ []
body_fields (handshake group seq message) =
    Encode.bytes group ∷ Encode.uint seq ∷ Encode.bytes message ∷ []
body_fields (join body) = Encode.bytes body ∷ []
body_fields (invite body) = Encode.bytes body ∷ []
body_fields (sub group from_seq) = Encode.bytes group ∷ Encode.uint from_seq ∷ []
body_fields (sub_ack group head_seq) = Encode.bytes group ∷ Encode.uint head_seq ∷ []
body_fields (recon group payload) = Encode.bytes group ∷ Encode.bytes payload ∷ []
body_fields (push envelope) = Encode.bytes envelope ∷ []
body_fields (send envelope) = Encode.bytes envelope ∷ []
body_fields (send_ack hash seq) = Encode.bytes hash ∷ Encode.uint seq ∷ []
body_fields (blob payload) = Encode.bytes payload ∷ []
body_fields (drop_before payload) = Encode.bytes payload ∷ []
body_fields (bye reason) = Encode.bytes reason ∷ []
body_fields (live group epoch ct) = Encode.bytes group ∷ Encode.uint epoch ∷ Encode.bytes ct ∷ []
body_fields (call call_id group epoch kind body) =
    Encode.bytes call_id
    ∷ Encode.bytes group
    ∷ Encode.uint epoch
    ∷ Encode.uint kind
    ∷ Encode.bytes body
    ∷ []
body_fields (media call_id stream seq ct) =
    Encode.bytes call_id ∷ Encode.bytes stream ∷ Encode.uint seq ∷ Encode.bytes ct ∷ []
body_fields (keys body) = Encode.uint (keys_form body) ∷ Encode.array (keys_fields body) ∷ []
body_fields (wake body) = Encode.uint (wake_form body) ∷ Encode.array (wake_fields body) ∷ []
body_fields (error e) =
    Encode.bytes (class_str (class e.code))
    ∷ Encode.bytes (code_str e.code)
    ∷ Encode.uint (Option.get_or e.retry_after 0)
    ∷ Encode.bytes (Option.get_or e.detail [])
    ∷ []

unfoldable pub encode : Frame → List ℕ
unfolding tag as_u16 body_fields
encode f = Encode.array (Encode.uint (as_u16 (tag f)) ∷ Encode.array (body_fields f) ∷ [])

-- `map(Vec::len).sum()`
unfoldable pub total_bytes : List (List ℕ) → ℕ
total_bytes [] = 0
total_bytes (item ∷ items) = length item + total_bytes items

unfoldable pub wake_queued_bytes : WakeBody → ℕ
wake_queued_bytes (register handle _ _) = length handle
wake_queued_bytes (capability _ register_url) = length register_url
wake_queued_bytes _ = 0

unfoldable pub keys_queued_bytes : KeysBody → ℕ
unfolding total_bytes
keys_queued_bytes (publish packages) = total_bytes packages
keys_queued_bytes (bundles packages) = total_bytes packages
keys_queued_bytes _ = 0

unfoldable pub payload_bytes : Frame → ℕ
unfolding total_bytes wake_queued_bytes keys_queued_bytes
payload_bytes (push envelope) = length envelope
payload_bytes (send envelope) = length envelope
payload_bytes (handshake _ _ message) = length message
payload_bytes (recon _ payload) = length payload
payload_bytes (access body) = length body
payload_bytes (wrap body) = length body
payload_bytes (join body) = length body
payload_bytes (invite body) = length body
payload_bytes (blob payload) = length payload
payload_bytes (connect _ groups _) = total_bytes groups
payload_bytes (live _ _ ct) = length ct
payload_bytes (call _ _ _ _ body) = length body
payload_bytes (media _ _ _ ct) = length ct
payload_bytes (keys body) = keys_queued_bytes body
payload_bytes (wake body) = wake_queued_bytes body
payload_bytes _ = 0

unfoldable pub queued_bytes : Frame → ℕ
unfolding payload_bytes
queued_bytes f = payload_bytes f + 256
