-- ===== src/Session/Handle.antt =====
-- backend/wealdrelay/src/session.rs: `handle`, on the state of the connection and the frame, and what
-- the rest of the relay tells a session about a challenge.
use wealdrelay.Base.{ℕ, Bool, List, [], ◌∷◌, if◌then◌else◌}
use wealdrelay.Frame.Code.{ErrorCode, new_error}
use wealdrelay.Frame.Body.{
  Frame, connect, auth, auth_ack, send, sub, recon, access, wrap, join, invite, handshake, live,
  keys, wake, call, media, blob, drop_before, bye, error,
}
use wealdrelay.Session.Limits.{full, read_only}
use wealdrelay.Session.Work.{Reaction}
use wealdrelay.Session.Meter.{State, fresh, challenged, ready, bootstrapping, closed, Session}
use wealdrelay.Session.Arms.{
  on_connect, on_auth, on_send, on_sub, on_recon, on_access, on_wrap, on_join, on_invite,
  on_handshake, on_live, on_keys, on_wake, on_call, on_media, on_blob, on_drop, on_bye, on_other,
}

module _ (blake3 : List ℕ → List ℕ) (secret : List ℕ) where
  unfoldable pub on_frame : State → Frame → Session → ℕ → Session × Reaction
  on_frame closed _ s now = on_other s
  on_frame _ (bye _) s now = on_bye s
  on_frame _ (join body) s now = on_join body s now
  on_frame fresh (connect version groups sent_at) s now =
      on_connect blake3 secret version groups sent_at s now
  on_frame challenged (auth device_key signature) s now = on_auth device_key signature s
  on_frame ready (send envelope) s now = on_send envelope s
  on_frame ready (sub group from_seq) s now = on_sub group from_seq s now
  on_frame ready (recon group payload) s now = on_recon group payload s now
  on_frame ready (access body) s now = on_access body s now
  on_frame bootstrapping (access body) s now = on_access body s now
  on_frame ready (wrap body) s now = on_wrap body s now
  on_frame ready (invite body) s now = on_invite body s now
  on_frame ready (handshake group _ message) s now = on_handshake group message s now
  on_frame ready (live group epoch ct) s now = on_live group epoch ct s now
  on_frame ready (keys body) s now = on_keys body s now
  on_frame ready (wake body) s now = on_wake body s now
  on_frame ready (call call_id group epoch kind body) s now =
      on_call call_id group epoch kind body s now
  on_frame ready (media call_id stream seq ct) s now = on_media call_id stream seq ct s now
  on_frame ready (blob payload) s now = on_blob payload s now
  on_frame ready (drop_before payload) s now = on_drop payload s now
  on_frame _ _ s now = on_other s

  unfoldable pub handle : Session → Frame → ℕ → Session × Reaction
  unfolding on_frame
  handle s f now = on_frame s.state f s now

-- `u8::from`
abbrev from_bool : Bool → ℕ
from_bool b = if b then 1 else 0

unfoldable pub ack_frame : Session → ℕ → Frame
ack_frame s remaining =
    auth_ack remaining (elim s.write_mode [ full ↦ 0 | read_only ↦ 1 ]) s.build_digest
      (from_bool s.access_set_enforced) (from_bool s.refuses_plaintext)

unfoldable pub authenticated : Session → ℕ → Session × Frame
unfolding ack_frame
authenticated s remaining =
    let s' = record s { state = ready; challenge = [] } in (s', ack_frame s' remaining)

unfoldable pub bootstrap : Session → ℕ → Session × Frame
unfolding ack_frame
bootstrap s remaining =
    let s' = record s { state = bootstrapping; challenge = [] } in (s', ack_frame s' remaining)

unfoldable pub rejected : Session → ErrorCode → Session × List Frame
unfolding new_error
rejected s code = (record s { state = closed }, error (new_error code) ∷ [])
