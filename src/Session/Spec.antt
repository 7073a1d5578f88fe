-- ===== src/Session/Spec.antt =====
-- backend/wealdrelay/src/session.rs: the protocol of a connection as a diagram of its own, and what
-- its states admit.
use wealdrelay.Base.{ℕ, Bool, true, false, Option, none, some, if◌then◌else◌}
use mathlib.Core.Option
use wealdrelay.Calls.{call_frames_per_minute}
use wealdrelay.Session.Work.{
  Work, authenticate, accept, subscribe, reconcile, rotate_access_set, blob_ticket, drop_before,
  publish_wrap, redeem, administer_invite, publish_handshake, publish_live, key_packages,
  wake_registration, publish_call, publish_media, Reaction, reply, reply_and_close, defer, policy,
  WriteRefusal, frame_table,
}
use wealdrelay.Session.Meter.{
  State, fresh, challenged, ready, bootstrapping, closed, Session, Meter, budget, join_allowance,
}
use wealdrelay.Session.Limits.{
  live_frames_per_minute, keys_frames_per_minute, wake_frames_per_minute,
  handshake_frames_per_minute, access_frames_per_minute, wrap_frames_per_minute,
  invite_frames_per_minute, sub_frames_per_minute, recon_frames_per_minute, blob_frames_per_minute,
  drop_frames_per_minute,
}
use wealdrelay.Session.FrameBudget.{FrameBudget, charge}

-- The work that each state hands over.
abbrev pub permits : State → Work → Bool
permits closed _ = false
permits _ (redeem _) = true
permits challenged (authenticate _ _ _) = true
permits bootstrapping (rotate_access_set _) = true
permits ready (authenticate _ _ _) = false
permits ready _ = true
permits _ _ = false

abbrev pub same_state : State → State → Bool
same_state fresh fresh = true
same_state challenged challenged = true
same_state ready ready = true
same_state bootstrapping bootstrapping = true
same_state closed closed = true
same_state _ _ = false

-- The moves of the protocol: an answer leaves the state, but for the one that makes the challenge; an
-- end closes; work is handed over where the state permits it.
abbrev pub legal : State → Reaction → State → Bool
legal _ (reply_and_close _) closed = true
legal _ (reply_and_close _) _ = false
legal closed _ _ = false
legal fresh (reply _) challenged = true
legal a (reply _) b = same_state a b
legal a (defer w) b = if same_state a b then permits a w else false

abbrev pub is_frame_table : WriteRefusal → Bool
is_frame_table frame_table = true
is_frame_table _ = false

-- The work that the policy has refused in read-only mode at the frame table.
abbrev pub hands_write : Reaction → Bool
hands_write (defer w) = is_frame_table (policy w).write_refusal
hands_write _ = false

-- The budget that a kind of work is charged to.
abbrev pub meter_of : Work → Option Meter
meter_of (authenticate _ _ _) = none
meter_of (accept _) = none
meter_of (subscribe _ _) = some Meter.sub
meter_of (reconcile _ _) = some Meter.recon
meter_of (rotate_access_set _) = some Meter.access
meter_of (blob_ticket _) = some Meter.blob
meter_of (drop_before _) = some Meter.drop
meter_of (publish_wrap _) = some Meter.wrap
meter_of (redeem _) = some Meter.join
meter_of (administer_invite _) = some Meter.invite
meter_of (publish_handshake _ _) = some Meter.handshake
meter_of (publish_live _ _ _) = some Meter.live
meter_of (key_packages _) = some Meter.keys
meter_of (wake_registration _) = some Meter.wake
meter_of (publish_call _ _ _ _ _) = some Meter.call
meter_of (publish_media _ _ _ _) = none

-- What the policy allows a kind of work in a window, where JOIN has more when a place is reserved.
abbrev pub allowance : Session → Work → ℕ
allowance s (redeem body) = join_allowance s
allowance s w = Option.get_or (policy w).frames_per_minute 0

abbrev pub same_meter : Meter → Meter → Bool
same_meter Meter.live Meter.live = true
same_meter Meter.keys Meter.keys = true
same_meter Meter.wake Meter.wake = true
same_meter Meter.handshake Meter.handshake = true
same_meter Meter.access Meter.access = true
same_meter Meter.wrap Meter.wrap = true
same_meter Meter.invite Meter.invite = true
same_meter Meter.sub Meter.sub = true
same_meter Meter.recon Meter.recon = true
same_meter Meter.blob Meter.blob = true
same_meter Meter.drop Meter.drop = true
same_meter Meter.join Meter.join = true
same_meter Meter.call Meter.call = true
same_meter _ _ = false

-- Whether a reaction hands over work of this budget.
abbrev pub uses : Meter → Reaction → Bool
uses n (defer w) = elim (meter_of w) [ none ↦ false | some m ↦ same_meter m n ]
uses n _ = false

-- What a window of a budget takes at most, while the connection's place stays as it is.
abbrev pub ceiling : Session → Meter → ℕ
ceiling s Meter.live = live_frames_per_minute
ceiling s Meter.keys = keys_frames_per_minute
ceiling s Meter.wake = wake_frames_per_minute
ceiling s Meter.handshake = handshake_frames_per_minute
ceiling s Meter.access = access_frames_per_minute
ceiling s Meter.wrap = wrap_frames_per_minute
ceiling s Meter.invite = invite_frames_per_minute
ceiling s Meter.sub = sub_frames_per_minute
ceiling s Meter.recon = recon_frames_per_minute
ceiling s Meter.blob = blob_frames_per_minute
ceiling s Meter.drop = drop_frames_per_minute
ceiling s Meter.join = join_allowance s
ceiling s Meter.call = call_frames_per_minute

-- A reaction's charge to one budget: the policy's allowance for the work it hands over fits, and
-- nothing else is charged.
abbrev pub charged : Session → Meter → Reaction → ℕ → FrameBudget × Bool
charged s n (defer w) now =
    if uses n (defer w) then charge (budget n s) now (allowance s w) else (budget n s, true)
charged s n _ now = (budget n s, true)
