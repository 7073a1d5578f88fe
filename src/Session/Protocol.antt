-- ===== src/Session/Protocol.antt =====
-- backend/wealdrelay/src/session.rs: the handler keeps to the diagram of the protocol.
use wealdrelay.Base.{ℕ, ◌≡◌, arith, true, false, List}
use wealdrelay.Frame.Body.{Frame}
use wealdrelay.Session.Work.{policy}
use wealdrelay.Session.Limits.{read_only}
use wealdrelay.Session.Meter.{Session, spend, set_budget}
use wealdrelay.Session.Arms.{
  refuse, refuse_with, over_rate, on_connect, on_auth, on_send, on_sub, on_recon, on_access,
  on_wrap, on_join, on_invite, on_handshake, on_live, on_keys, key_packages, on_wake,
  wake_registration, on_call, on_media, report, on_blob, on_drop, on_other, metered,
  calls_unavailable, read_only_refusal, refuses_writes,
}
use wealdrelay.Session.Handle.{handle, on_frame}
use wealdrelay.Session.Spec.{legal, hands_write}

-- Every frame moves a session as the diagram of the protocol allows: an answer leaves the state,
-- but for the one that makes the challenge of a fresh connection; an answer that ends the
-- connection leaves it closed, and a closed one gives no other; and work is handed over without a
-- move, only in a state that permits it: authentication while challenged, redeeming anywhere but
-- closed, the access set while ready or bootstrapping, and the rest while ready.
pub handle-legal :
    (blake3 : List ℕ → List ℕ) (secret : List ℕ) (s : Session) (f : Frame) (now : ℕ)
    → let (after, reaction) = handle blake3 secret s f now in
      legal s.state reaction after.state ≡ true
unfolding handle on_frame on_connect on_auth on_send on_sub on_recon on_access on_wrap on_join
    on_invite on_handshake on_live on_keys key_packages on_wake wake_registration on_call on_media
    report on_blob on_drop on_other metered spend set_budget refuse refuse_with over_rate
    calls_unavailable read_only_refusal
handle-legal blake3 secret s f now = ground arith

-- A session in read-only mode hands over no work that the table of policies has refused at the
-- frame table.
pub handle-read_only :
    (blake3 : List ℕ → List ℕ) (secret : List ℕ) (s : Session) (f : Frame) (now : ℕ)
    → s.write_mode ≡ read_only
    → hands_write (handle blake3 secret s f now).1 ≡ false
unfolding handle on_frame on_connect on_auth on_send on_sub on_recon on_access on_wrap on_join
    on_invite on_handshake on_live on_keys key_packages on_wake wake_registration on_call on_media
    report on_blob on_drop on_other metered spend set_budget refuse refuse_with over_rate
    calls_unavailable read_only_refusal refuses_writes policy
handle-read_only blake3 secret s f now h = ground arith
