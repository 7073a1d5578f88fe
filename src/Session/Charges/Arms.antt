-- ===== src/Session/Charges/Arms.antt =====
-- backend/wealdrelay/src/session.rs: what each arm of the handler charges.
use wealdrelay.Base.{ℕ, ◌≡◌, refl, arith, Bool-cases, Option-cases, inl, inr, List}
use wealdrelay.Frame.Body.{Frame, KeysBody, WakeBody}
use wealdrelay.Session.Work.{Work, Reaction, policy}
use wealdrelay.Session.Meter.{Session, Meter, budget, join_allowance}
use wealdrelay.Calls.{from_u8, call_frames_per_minute}
use wealdrelay.Session.Limits.{
  keys_frames_per_minute, wake_frames_per_minute, sub_frames_per_minute,
}
use wealdrelay.Session.Arms.{
  close, refuses_writes, refuse, refuse_with, over_rate, unless, on_connect, on_sub, on_recon,
  on_access, on_wrap, on_join, on_invite, on_handshake, on_live, on_keys, key_packages, on_wake,
  wake_registration, on_call, on_media, report, on_blob, on_drop, metered, calls_unavailable,
  read_only_refusal,
}
use wealdrelay.Session.Spec.{allowance}
use wealdrelay.Session.Charges.Metered.{Charges, metered-Charges}

pub read_only-Charges :
    (s : Session) (now : ℕ) (n : Meter) (rest : Session × Reaction)
    → Charges s now n rest
    → Charges s now n (unless (read_only_refusal s) s rest)
unfolding read_only_refusal refuse
read_only-Charges s now n rest h = elim (Bool-cases (refuses_writes s)) [
  | inl e ↦ rw e refl
  | inr e ↦ rw e h
]

pub close-Charges :
    (s : Session) (frames : List Frame) (now : ℕ) (n : Meter) → Charges s now n (close s frames)
unfolding budget
close-Charges s frames now n = ground arith

pub on_recon-Charges :
    (g p : List ℕ) (s : Session) (now : ℕ) (n : Meter) → Charges s now n (on_recon g p s now)
unfolding on_recon policy
on_recon-Charges g p s now n =
    metered-Charges Meter.recon n (Work.reconcile g p) _ s now refl refl (omega arith)

pub on_access-Charges :
    (p : List ℕ) (s : Session) (now : ℕ) (n : Meter) → Charges s now n (on_access p s now)
unfolding on_access policy
on_access-Charges p s now n =
    read_only-Charges s now n _
      (metered-Charges Meter.access n (Work.rotate_access_set p) _ s now refl refl (omega arith))

pub on_wrap-Charges :
    (p : List ℕ) (s : Session) (now : ℕ) (n : Meter) → Charges s now n (on_wrap p s now)
unfolding on_wrap policy
on_wrap-Charges p s now n =
    read_only-Charges s now n _
      (metered-Charges Meter.wrap n (Work.publish_wrap p) _ s now refl refl (omega arith))

pub on_join-Charges :
    (p : List ℕ) (s : Session) (now : ℕ) (n : Meter) → Charges s now n (on_join p s now)
unfolding on_join policy join_allowance
on_join-Charges p s now n =
    metered-Charges Meter.join n (Work.redeem p) _ s now refl refl (ground arith)

pub on_invite-Charges :
    (p : List ℕ) (s : Session) (now : ℕ) (n : Meter) → Charges s now n (on_invite p s now)
unfolding on_invite policy
on_invite-Charges p s now n =
    read_only-Charges s now n _
      (metered-Charges Meter.invite n (Work.administer_invite p) _ s now refl refl (omega arith))

pub on_handshake-Charges :
    (g p : List ℕ) (s : Session) (now : ℕ) (n : Meter) → Charges s now n (on_handshake g p s now)
unfolding on_handshake policy
on_handshake-Charges g p s now n =
    read_only-Charges s now n _ (
      metered-Charges Meter.handshake n (Work.publish_handshake g p) _ s now refl refl
        (omega arith))

pub on_live-Charges :
    (g : List ℕ) (e : ℕ) (p : List ℕ) (s : Session) (now : ℕ) (n : Meter)
    → Charges s now n (on_live g e p s now)
unfolding on_live policy refuse refuse_with
on_live-Charges g e p s now n =
    ground (
      arith,
      metered-Charges Meter.live n (Work.publish_live g e p) _ s now refl refl (omega arith),
    )

keys_allowance :
    (s : Session) (b : KeysBody) → allowance s (Work.key_packages b) ≡ keys_frames_per_minute
unfolding policy
keys_allowance s b = ground arith

wake_allowance :
    (s : Session) (b : WakeBody) → allowance s (Work.wake_registration b) ≡ wake_frames_per_minute
unfolding policy
wake_allowance s b = ground arith

pub on_keys-Charges :
    (b : KeysBody) (s : Session) (now : ℕ) (n : Meter) → Charges s now n (on_keys b s now)
unfolding on_keys policy key_packages refuse refuse_with read_only_refusal
on_keys-Charges b s now n = ground (
  arith,
  metered-Charges Meter.keys n (Work.key_packages b) _ s now refl (keys_allowance s b)
      (omega arith),
  read_only-Charges s now n (metered Meter.keys keys_frames_per_minute (Work.key_packages b) s now),
)

pub on_wake-Charges :
    (b : WakeBody) (s : Session) (now : ℕ) (n : Meter) → Charges s now n (on_wake b s now)
unfolding on_wake policy wake_registration refuse read_only_refusal
on_wake-Charges b s now n = ground (
  arith,
  metered-Charges Meter.wake n (Work.wake_registration b) _ s now refl (wake_allowance s b)
      (omega arith),
  read_only-Charges s now n
      (metered Meter.wake wake_frames_per_minute (Work.wake_registration b) s now),
)

pub on_blob-Charges :
    (p : List ℕ) (s : Session) (now : ℕ) (n : Meter) → Charges s now n (on_blob p s now)
unfolding on_blob policy
on_blob-Charges p s now n =
    metered-Charges Meter.blob n (Work.blob_ticket p) _ s now refl refl (omega arith)

pub on_drop-Charges :
    (p : List ℕ) (s : Session) (now : ℕ) (n : Meter) → Charges s now n (on_drop p s now)
unfolding on_drop policy
on_drop-Charges p s now n =
    read_only-Charges s now n _
      (metered-Charges Meter.drop n (Work.drop_before p) _ s now refl refl (omega arith))

pub on_sub-Charges :
    (g : List ℕ) (q : ℕ) (s : Session) (now : ℕ) (n : Meter) → Charges s now n (on_sub g q s now)
unfolding on_sub policy refuse_with over_rate metered budget
on_sub-Charges g q s now n = ground (
  arith,
  metered-Charges Meter.sub n (Work.subscribe g q) sub_frames_per_minute s now refl refl
      (omega arith),
)

pub on_call-Charges :
    (c g : List ℕ) (e k : ℕ) (b : List ℕ) (s : Session) (now : ℕ) (n : Meter)
    → Charges s now n (on_call c g e k b s now)
unfolding on_call policy refuse refuse_with calls_unavailable
on_call-Charges c g e k b s now n = elim (Option-cases (from_u8 k)) [
  | inl h ↦ ground arith
  | inr (k', h) ↦ ground (
    arith,
    metered-Charges Meter.call n (Work.publish_call c g e k' b) call_frames_per_minute s now refl
        refl (omega arith),
  )
]

pub on_media-Charges :
    (c g : List ℕ) (e : ℕ) (b : List ℕ) (s : Session) (now : ℕ) (n : Meter)
    → Charges s now n (on_media c g e b s now)
unfolding on_media refuse refuse_with calls_unavailable report budget
on_media-Charges c g e b s now n = ground arith

pub on_connect-Charges :
    (blake3 : List ℕ → List ℕ) (secret : List ℕ) (v : ℕ) (gs : List (List ℕ)) (t : ℕ) (s : Session)
    (now : ℕ) (n : Meter)
    → Charges s now n (on_connect blake3 secret v gs t s now)
unfolding on_connect budget
on_connect-Charges blake3 secret v gs t s now n = ground arith
