-- ===== src/Frame/Fits.antt =====
-- The ranges of the fields of the frames of backend/wealdrelay/src/frame.rs: those of their Rust
-- types, and those that the decoder asks for.
use wealdrelay.Base.{
  ℕ, ◌^◌, ◌≤◌, ◌<◌, ◌≡◌, true, Option, none, some, List, length, All, IsByte, IsU64,
}
use wealdrelay.Cbor.Utf8.{is_utf8}
use wealdrelay.Push.Category.{is_valid_mask}
use wealdrelay.Frame.Tag.{max_frame_bytes, max_wake_bytes}
use wealdrelay.Frame.Body.{
  Frame, WakeBody, KeysBody, register, registered, clear, cleared, query, capability, publish,
  published, fetch, bundles, no_keys, connect, connect_ack, auth_challenge, auth, auth_ack, access,
  sub, sub_ack, recon, push, send, send_ack, blob, drop_before, bye, error, wrap, handshake, join,
  invite, live, keys, call, media, wake,
}
use wealdrelay.Frame.Decode.{
  handle_bytes, max_register_url_bytes, call_id_bytes, stream_bytes, protocol_version,
  is_acceptable_register_url,
}

abbrev pub IsText : List ℕ → Type 0
IsText xs = IsU64 (length xs)

abbrev pub IsKey : List ℕ → Type 0
IsKey xs = length xs ≡ 32

abbrev pub FitsRetry : Option ℕ → Type 0
FitsRetry none = Unit {0}
FitsRetry (some n) = (1 ≤ n) × (n < 2 ^ 32)

abbrev pub FitsDetail : Option (List ℕ) → Type 0
FitsDetail none = Unit {0}
FitsDetail (some d) = (1 ≤ length d) × IsText d

abbrev pub FitsKeys : KeysBody → Type 0
FitsKeys (publish packages) = IsU64 (length packages) × All IsText packages
FitsKeys (bundles packages) = IsU64 (length packages) × All IsText packages
FitsKeys (published remaining) = remaining < 2 ^ 32
FitsKeys (fetch device count) = IsKey device × IsByte count
FitsKeys no_keys = Unit {0}

module _ (parse_url : List ℕ → Option (List ℕ × Option (List ℕ))) where
  abbrev pub FitsWake : WakeBody → Type 0
  FitsWake (register handle categories expires_at) =
      (length handle ≡ handle_bytes)
      × IsByte categories
      × (is_valid_mask categories ≡ true)
      × IsU64 expires_at
  FitsWake (registered expires_at) = IsU64 expires_at
  FitsWake clear = Unit {0}
  FitsWake cleared = Unit {0}
  FitsWake query = Unit {0}
  FitsWake (capability enabled url) =
      (length url ≤ max_register_url_bytes)
      × (is_utf8 url ≡ true)
      × (is_acceptable_register_url parse_url url ≡ true)

  abbrev pub Fits : Frame → Type 0
  Fits (connect version groups sent_at) =
      (1 ≤ version) × (version < 2 ^ 16) × IsU64 (length groups) × All IsKey groups × IsU64 sent_at
  Fits (connect_ack version server_time min_enc) =
      (1 ≤ version) × (version ≤ protocol_version) × IsU64 server_time × IsByte min_enc
  Fits (auth_challenge challenge) = IsText challenge
  Fits (auth device_key signature) = IsKey device_key × (length signature ≡ 64)
  Fits (auth_ack remaining write_mode build_digest access_set min_enc) =
      (remaining < 2 ^ 32)
      × IsByte write_mode
      × IsText build_digest
      × IsByte access_set
      × IsByte min_enc
  Fits (access body) = IsText body
  Fits (wrap body) = IsText body
  Fits (join body) = IsText body
  Fits (invite body) = IsText body
  Fits (handshake group seq message) = IsKey group × IsU64 seq × IsText message
  Fits (sub group from_seq) = IsKey group × IsU64 from_seq
  Fits (sub_ack group head_seq) = IsKey group × IsU64 head_seq
  Fits (recon group payload) = IsKey group × IsText payload
  Fits (push envelope) = IsText envelope
  Fits (send envelope) = IsText envelope
  Fits (send_ack hash seq) = IsKey hash × IsU64 seq
  Fits (blob payload) = IsText payload
  Fits (drop_before payload) = IsText payload
  Fits (bye reason) = IsText reason
  Fits (live group epoch ct) = IsKey group × IsU64 epoch × IsText ct
  Fits (call call_id group epoch kind body) =
      (length call_id ≡ call_id_bytes) × IsKey group × IsU64 epoch × IsByte kind × IsText body
  Fits (media call_id stream seq ct) =
      (length call_id ≡ call_id_bytes) × (length stream ≡ stream_bytes) × IsU64 seq × IsText ct
  Fits (keys body) = FitsKeys body
  Fits (wake body) = FitsWake body
  Fits (error e) = FitsRetry e.retry_after × FitsDetail e.detail

-- The most bytes that a frame may have.
abbrev pub byte_limit : Frame → ℕ
byte_limit (wake _) = max_wake_bytes
byte_limit _ = max_frame_bytes
