-- ===== src/Session/Charges.antt =====
-- backend/wealdrelay/src/session.rs: the handler's charges against the policy's table.
mod Metered
mod Arms
use wealdrelay.Base.{
  ℕ, ◌<◌, ◌≡◌, refl, ap, ◌∙◌, arith, true, false, Bool-cases, Option-cases, inl, inr, if◌then◌else◌,
  none, some, List, [],
}
use mathlib.Core.Path.{ap₂}
use wealdrelay.Frame.Body.{Frame, KeysBody, WakeBody}
use wealdrelay.Session.Work.{Work, Reaction, defer, policy}
use wealdrelay.Session.Meter.{
  State, fresh, challenged, ready, bootstrapping, closed, Session, Meter, spend, budget, set_budget,
  join_allowance,
}
use wealdrelay.Calls.{from_u8, call_frames_per_minute}
use wealdrelay.Session.Limits.{
  keys_frames_per_minute, wake_frames_per_minute, sub_frames_per_minute,
}
use wealdrelay.Session.FrameBudget.{FrameBudget, roll, charge}
use wealdrelay.Session.Arms.{
  close, refuses_writes, refuse, refuse_with, over_rate, unless, on_connect, on_auth, on_send,
  on_sub, on_recon, on_access, on_wrap, on_join, on_invite, on_handshake, on_live, on_keys,
  key_packages, on_wake, wake_registration, on_call, on_media, report, on_blob, on_drop, on_other,
  metered, calls_unavailable, read_only_refusal,
}
use wealdrelay.Session.Handle.{handle, on_frame}
use wealdrelay.Session.Spec.{charged, same_meter, meter_of, allowance, ceiling}
use wealdrelay.Session.Charges.Metered.{Charges}
use wealdrelay.Session.Charges.Arms.{
  read_only-Charges, close-Charges, on_recon-Charges, on_access-Charges, on_wrap-Charges,
  on_join-Charges, on_invite-Charges, on_handshake-Charges, on_live-Charges, on_keys-Charges,
  on_wake-Charges, on_blob-Charges, on_drop-Charges, on_sub-Charges, on_call-Charges,
  on_media-Charges, on_connect-Charges,
}

module _ (blake3 : List ℕ → List ℕ) (secret : List ℕ) where
  ready-Charges :
      (f : Frame) (s : Session) (now : ℕ) (n : Meter)
      → Charges s now n (on_frame blake3 secret ready f s now)
  unfolding on_frame on_send on_other budget
  ready-Charges (Frame.connect _ _ _) s now n = close-Charges s [] now n
  ready-Charges (Frame.connect_ack _ _ _) s now n = close-Charges s [] now n
  ready-Charges (Frame.auth_challenge _) s now n = close-Charges s [] now n
  ready-Charges (Frame.auth _ _) s now n = close-Charges s [] now n
  ready-Charges (Frame.auth_ack _ _ _ _ _) s now n = close-Charges s [] now n
  ready-Charges (Frame.access p) s now n = on_access-Charges p s now n
  ready-Charges (Frame.sub g q) s now n = on_sub-Charges g q s now n
  ready-Charges (Frame.sub_ack _ _) s now n = close-Charges s [] now n
  ready-Charges (Frame.recon g p) s now n = on_recon-Charges g p s now n
  ready-Charges (Frame.push _) s now n = close-Charges s [] now n
  ready-Charges (Frame.send p) s now n = read_only-Charges s now n (s, defer (Work.accept p)) refl
  ready-Charges (Frame.send_ack _ _) s now n = close-Charges s [] now n
  ready-Charges (Frame.blob p) s now n = on_blob-Charges p s now n
  ready-Charges (Frame.drop_before p) s now n = on_drop-Charges p s now n
  ready-Charges (Frame.bye _) s now n = close-Charges s [] now n
  ready-Charges (Frame.error _) s now n = close-Charges s [] now n
  ready-Charges (Frame.wrap p) s now n = on_wrap-Charges p s now n
  ready-Charges (Frame.handshake g _ p) s now n = on_handshake-Charges g p s now n
  ready-Charges (Frame.join p) s now n = on_join-Charges p s now n
  ready-Charges (Frame.invite p) s now n = on_invite-Charges p s now n
  ready-Charges (Frame.live g e p) s now n = on_live-Charges g e p s now n
  ready-Charges (Frame.keys b) s now n = on_keys-Charges b s now n
  ready-Charges (Frame.call c g e k b) s now n = on_call-Charges c g e k b s now n
  ready-Charges (Frame.media c g e b) s now n = on_media-Charges c g e b s now n
  ready-Charges (Frame.wake b) s now n = on_wake-Charges b s now n

  fresh-Charges :
      (f : Frame) (s : Session) (now : ℕ) (n : Meter)
      → Charges s now n (on_frame blake3 secret fresh f s now)
  unfolding on_frame on_other budget
  fresh-Charges f s now n = grind (arith, on_connect-Charges, on_join-Charges)

  challenged-Charges :
      (f : Frame) (s : Session) (now : ℕ) (n : Meter)
      → Charges s now n (on_frame blake3 secret challenged f s now)
  unfolding on_frame on_auth on_other budget
  challenged-Charges f s now n = grind (arith, on_join-Charges)

  bootstrapping-Charges :
      (f : Frame) (s : Session) (now : ℕ) (n : Meter)
      → Charges s now n (on_frame blake3 secret bootstrapping f s now)
  unfolding on_frame on_other budget
  bootstrapping-Charges f s now n = grind (arith, on_access-Charges, on_join-Charges)

  -- Against the table of policies: for each budget of a session, whatever the frame, the budget is
  -- charged exactly when the work that is handed over is of its kind, with the allowance that the
  -- policy of that work names (for JOIN the one of the connection's place), that charge fits, and
  -- otherwise the budget stays as it was.
  pub handle-charges :
      (s : Session) (f : Frame) (now : ℕ) (n : Meter)
      → let (after, reaction) = handle blake3 secret s f now in
        charged s n reaction now ≡ (budget n after, true)
  unfolding handle on_frame on_other budget
  handle-charges s f now n = by_state s.state
    where
      by_state : (a : State) → Charges s now n (on_frame blake3 secret a f s now)
      by_state fresh = fresh-Charges f s now n
      by_state challenged = challenged-Charges f s now n
      by_state ready = ready-Charges f s now n
      by_state bootstrapping = bootstrapping-Charges f s now n
      by_state closed = close-Charges s [] now n

handle-join_reserved :
    (blake3 : List ℕ → List ℕ) (secret : List ℕ) (s : Session) (f : Frame) (now : ℕ)
    → (handle blake3 secret s f now).0.join_reserved ≡ s.join_reserved
unfolding handle on_frame on_connect on_auth on_send on_sub on_recon on_access on_wrap on_join
    on_invite on_handshake on_live on_keys key_packages on_wake wake_registration on_call on_media
    report on_blob on_drop on_other metered spend calls_unavailable read_only_refusal refuse
    refuse_with over_rate set_budget
handle-join_reserved blake3 secret s f now = ground arith

-- No frame changes what a window of a budget takes.
pub handle-ceiling :
    (blake3 : List ℕ → List ℕ) (secret : List ℕ) (s : Session) (f : Frame) (now : ℕ) (n : Meter)
    → ceiling (handle blake3 secret s f now).0 n ≡ ceiling s n
unfolding join_allowance
handle-ceiling blake3 secret s f now n = ground (arith, handle-join_reserved blake3 secret s f now)
