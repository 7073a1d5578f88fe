-- ===== src/Frame/Decode/Read.antt =====
-- The bodies that the decoder of backend/wealdrelay/src/frame.rs reads, but for WAKE's url.
use wealdrelay.Base.{
  ℕ, zero, suc, not, Option, none, some, List, [], ◌∷◌, ltb, leb, ◌==◌, ◌&&◌, ◌||◌, if◌then◌else◌,
  length, bytes_eq, ok_or, Method, ◌>>=◌, ◌>>◌, pure, fail, lift, convert,
}
use wealdrelay.Cbor.Reader.{Reader}
use wealdrelay.Cbor.Typed.{uint, u8, u16, u32, bytes, bytes_of, array, array_header}
use wealdrelay.Push.Category.{is_valid_mask}
use wealdrelay.Frame.Code.{ErrorCode, class, class_str, code_str, all_codes}
use wealdrelay.Frame.Tag.{
  FrameDecodeError, cbor, unsupported_version, bad_field, bad_wake_field, wake_shape,
}
use wealdrelay.Frame.Body.{
  Frame, WakeBody, KeysBody, register, publish, published, fetch, bundles, no_keys, connect,
  connect_ack, auth, auth_ack, recon, error, keys, call, media,
}

abbrev pub protocol_version : ℕ
protocol_version = 4

abbrev pub min_protocol_version : ℕ
min_protocol_version = 1

abbrev pub handle_bytes : ℕ
handle_bytes = 16

abbrev pub max_register_url_bytes : ℕ
max_register_url_bytes = 512

abbrev pub call_id_bytes : ℕ
call_id_bytes = 16

abbrev pub stream_bytes : ℕ
stream_bytes = 4

abbrev pub Decode : Type 0 → Type 0
Decode A = Method Reader FrameDecodeError A

-- The loop over the groups of a CONNECT, with `n` left.
unfoldable pub read_groups : ℕ → Decode (List (List ℕ))
read_groups zero = pure []
read_groups (suc n) = do
  group ← convert cbor (bytes_of 32)
  groups ← read_groups n
  pure (group ∷ groups)

unfoldable pub read_packages : ℕ → Decode (List (List ℕ))
read_packages zero = pure []
read_packages (suc n) = do
  one ← convert cbor bytes
  packages ← read_packages n
  pure (one ∷ packages)

unfoldable pub read_connect : Decode Frame
unfolding read_groups
read_connect = do
  convert cbor (array 3)
  version ← convert cbor u16
  if ltb version min_protocol_version then fail (unsupported_version version) else (do
    count ← convert cbor array_header
    groups ← read_groups count
    sent_at ← convert cbor uint
    pure (connect version groups sent_at))

unfoldable pub read_connect_ack : Decode Frame
read_connect_ack = do
  convert cbor (array 3)
  version ← convert cbor u16
  if not (leb min_protocol_version version && leb version protocol_version)
      then fail (unsupported_version version)
      else (do
        server_time ← convert cbor uint
        min_enc ← convert cbor u8
        pure (connect_ack version server_time min_enc))

-- A body of one byte string.
unfoldable pub read_single : (List ℕ → Frame) → Decode Frame
read_single make = do convert cbor (array 1); body ← convert cbor bytes; pure (make body)

-- A body of a 32-byte string and a number.
unfoldable pub read_group_number : (List ℕ → ℕ → Frame) → Decode Frame
read_group_number make = do
  convert cbor (array 2)
  group ← convert cbor (bytes_of 32)
  number ← convert cbor uint
  pure (make group number)

-- A body of a group, a number and a byte string.
unfoldable pub read_group_message : (List ℕ → ℕ → List ℕ → Frame) → Decode Frame
read_group_message make = do
  convert cbor (array 3)
  group ← convert cbor (bytes_of 32)
  number ← convert cbor uint
  message ← convert cbor bytes
  pure (make group number message)

unfoldable pub read_auth : Decode Frame
read_auth = do
  convert cbor (array 2)
  device_key ← convert cbor (bytes_of 32)
  signature ← convert cbor (bytes_of 64)
  pure (auth device_key signature)

unfoldable pub read_auth_ack : Decode Frame
read_auth_ack = do
  convert cbor (array 5)
  remaining ← convert cbor u32
  write_mode ← convert cbor u8
  build_digest ← convert cbor bytes
  access_set ← convert cbor u8
  min_enc ← convert cbor u8
  pure (auth_ack remaining write_mode build_digest access_set min_enc)

unfoldable pub read_recon : Decode Frame
read_recon = do
  convert cbor (array 2)
  group ← convert cbor (bytes_of 32)
  payload ← convert cbor bytes
  pure (recon group payload)

unfoldable pub read_call : Decode Frame
read_call = do
  convert cbor (array 5)
  call_id ← convert cbor (bytes_of call_id_bytes)
  group ← convert cbor (bytes_of 32)
  epoch ← convert cbor uint
  kind ← convert cbor u8
  body ← convert cbor bytes
  pure (call call_id group epoch kind body)

unfoldable pub read_media : Decode Frame
read_media = do
  convert cbor (array 4)
  call_id ← convert cbor (bytes_of call_id_bytes)
  stream ← convert cbor (bytes_of stream_bytes)
  seq ← convert cbor uint
  ct ← convert cbor bytes
  pure (media call_id stream seq ct)

unfoldable pub read_keys_body : ℕ → Decode KeysBody
unfolding read_packages
read_keys_body form =
    if form == 1 || form == 4
    then (do
      count ← convert cbor array_header
      packages ← read_packages count
      pure (if form == 1 then publish packages else bundles packages))
    else if form == 2
    then (do convert cbor (array 1); remaining ← convert cbor u32; pure (published remaining))
    else if form == 3
    then (do
      convert cbor (array 2)
      device ← convert cbor (bytes_of 32)
      count ← convert cbor u8
      pure (fetch device count))
    else if form == 5
    then (do convert cbor (array 0); pure no_keys)
    else fail (bad_field "form")

unfoldable pub read_keys : Decode Frame
unfolding read_keys_body
read_keys = do
  convert cbor (array 2)
  form ← convert cbor u8
  body ← read_keys_body form
  pure (keys body)

unfoldable pub read_register : Decode WakeBody
unfolding wake_shape is_valid_mask
read_register = do
  convert (λ e. wake_shape e "register") (array 3)
  handle ← convert (λ e. wake_shape e "handle") bytes
  if not (length handle == handle_bytes) then fail (bad_wake_field "handle") else (do
    categories ← convert (λ e. wake_shape e "categories") u8
    if not (is_valid_mask categories) then fail (bad_wake_field "categories") else (do
      expires_at ← convert (λ e. wake_shape e "expires_at") uint
      pure (register handle categories expires_at)))

-- The code with both wire names.
unfoldable pub find_code : List ℕ → List ℕ → List ErrorCode → Option ErrorCode
unfolding class class_str code_str
find_code class_name code_name [] = none
find_code class_name code_name (c ∷ cs) =
    if bytes_eq (code_str c) code_name && bytes_eq (class_str (class c)) class_name
    then some c
    else find_code class_name code_name cs

unfoldable pub read_error : Decode Frame
unfolding find_code all_codes
read_error = do
  convert cbor (array 4)
  class_name ← convert cbor bytes
  code_name ← convert cbor bytes
  retry_after ← convert cbor u32
  detail ← convert cbor bytes
  code ← lift (ok_or (find_code class_name code_name all_codes) (bad_field "code"))
  pure (
      error (record {
        code = code;
        retry_after = if ltb 0 retry_after then some retry_after else none;
        detail = if length detail == 0 then none else some detail;
      }))
