-- ===== src/Session/Runs.antt =====
-- backend/wealdrelay/src/session.rs: the life of one connection, as the calls that the relay makes on
-- its session.
use wealdrelay.Base.{
  Once, contains, ℕ, ◌+◌, ◌≤◌, ◌≡◌, refl, ap, arith, false, List, [], ◌∷◌, bytes_eq, length,
  Bool-cases, inl, inr,
}
use wealdrelay.Frame.Code.{ErrorCode}
use wealdrelay.Frame.Body.{Frame}
use wealdrelay.Session.Work
use wealdrelay.Session.Work.{Reaction, reply, defer}
use wealdrelay.Session.Limits.{max_groups_per_connection}
use wealdrelay.Session.Meter.{
  fresh, challenged, ready, bootstrapping, closed, Session, Config, Meter, new, budget, set_budget,
  spend, forget_subscription, drop_group, note_join_reserved, join_allowance, bind_device,
  bind_workspace,
}
use wealdrelay.Session.Arms.{
  on_connect, on_auth, on_send, on_sub, on_recon, on_access, on_wrap, on_join, on_invite,
  on_handshake, on_live, on_keys, key_packages, on_wake, wake_registration, on_call, on_media,
  report, on_blob, on_drop, on_other, metered, calls_unavailable, read_only_refusal, refuse,
  refuse_with, over_rate,
}
use wealdrelay.Session.Handle.{handle, on_frame, authenticated, bootstrap, rejected}
use wealdrelay.Session.Spec.{ceiling}
use wealdrelay.Session.WellFormed.{IsWellFormed, handle-IsWellFormed}

-- The calls that change a session.
pub data Event : Type 0 where
  frame : Frame → ℕ → Event
  accepts : ℕ → Event
  bootstraps : ℕ → Event
  rejects : ErrorCode → Event
  forgets : List ℕ → Event
  reserves : Event
  binds_device binds_workspace : List ℕ → Event

module _ (blake3 : List ℕ → List ℕ) (secret : List ℕ) where
  -- The session after a call, and what it answers to a frame.
  unfoldable pub step : Session → Event → Session × Reaction
  unfolding handle authenticated bootstrap rejected forget_subscription note_join_reserved
      bind_device bind_workspace
  step s (frame f now) = handle blake3 secret s f now
  step s (accepts remaining) =
      ((authenticated s remaining).0, reply ((authenticated s remaining).1 ∷ []))
  step s (bootstraps remaining) =
      ((bootstrap s remaining).0, reply ((bootstrap s remaining).1 ∷ []))
  step s (rejects code) = ((rejected s code).0, reply (rejected s code).1)
  step s (forgets group) = (forget_subscription group s, reply [])
  step s reserves = (note_join_reserved s, reply [])
  step s (binds_device key) = (bind_device key s, reply [])
  step s (binds_workspace workspace) = (bind_workspace workspace s, reply [])

  unfoldable pub after : Session → List Event → Session
  unfolding step
  after s [] = s
  after s (e ∷ es) = after (step s e).0 es

-- An authentication that carries a challenge, which is never empty when it was issued.
abbrev pub carries : Reaction → ℕ
carries (defer (Work.authenticate _ _ [])) = 0
carries (defer (Work.authenticate _ _ (_ ∷ _))) = 1
carries _ = 0

module _ (blake3 : List ℕ → List ℕ) (secret : List ℕ) where
  unfoldable pub challenges_spent : Session → List Event → ℕ
  unfolding step
  challenges_spent s [] = 0
  challenges_spent s (e ∷ es) =
      let (s', reaction) = step blake3 secret s e in carries reaction + challenges_spent s' es

-- The authentications that a connection has left.
abbrev left : Session → ℕ
left s = elim s.state [
  | fresh ↦ 1
  | challenged ↦ elim s.challenge [ [] ↦ 0 | _ ∷ _ ↦ 1 ]
  | ready ↦ 0
  | bootstrapping ↦ 0
  | closed ↦ 0
]

handle-left :
    (blake3 : List ℕ → List ℕ) (secret : List ℕ) (s : Session) (f : Frame) (now : ℕ)
    → carries (handle blake3 secret s f now).1 + left (handle blake3 secret s f now).0 ≤ left s
unfolding handle on_frame on_connect on_auth on_send on_sub on_recon on_access on_wrap on_join
    on_invite on_handshake on_live on_keys key_packages on_wake wake_registration on_call on_media
    report on_blob on_drop on_other metered spend calls_unavailable read_only_refusal refuse
    refuse_with over_rate set_budget
handle-left blake3 secret s f now = ground arith

step-left :
    (blake3 : List ℕ → List ℕ) (secret : List ℕ) (s : Session) (e : Event)
    → carries (step blake3 secret s e).1 + left (step blake3 secret s e).0 ≤ left s
unfolding step authenticated bootstrap rejected forget_subscription note_join_reserved bind_device
    bind_workspace
step-left blake3 secret s (frame f now) = handle-left blake3 secret s f now
step-left blake3 secret s (accepts remaining) = omega arith
step-left blake3 secret s (bootstraps remaining) = omega arith
step-left blake3 secret s (rejects code) = omega arith
step-left blake3 secret s (forgets group) = omega arith
step-left blake3 secret s reserves = omega arith
step-left blake3 secret s (binds_device key) = omega arith
step-left blake3 secret s (binds_workspace workspace) = omega arith

challenges_spent-left :
    (blake3 : List ℕ → List ℕ) (secret : List ℕ) (es : List Event) (s : Session)
    → challenges_spent blake3 secret s es ≤ left s
unfolding challenges_spent
challenges_spent-left blake3 secret [] s = omega arith
challenges_spent-left blake3 secret (e ∷ es) s = omega (
  arith,
  step-left blake3 secret s e,
  challenges_spent-left blake3 secret es (step blake3 secret s e).0,
)

-- Whatever calls the relay makes on a new session, at most one authentication is handed over with
-- a challenge that is not empty.
pub challenges_spent-once :
    (blake3 : List ℕ → List ℕ) (secret : List ℕ) (config : Config) (nonce : ℕ) (digest : List ℕ)
    (es : List Event)
    → challenges_spent blake3 secret (new config nonce digest) es ≤ 1
unfolding new
challenges_spent-once blake3 secret config nonce digest es =
    challenges_spent-left blake3 secret es (new config nonce digest)

new-IsWellFormed :
    (config : Config) (nonce : ℕ) (digest : List ℕ) → IsWellFormed (new config nonce digest)
unfolding new budget
new-IsWellFormed config nonce digest = record {
  subscribed_few = omega arith;
  subscribed_once = tt;
  requested_few = omega arith;
  version_low = omega arith;
  version_high = omega arith;
  budgets = λ n. ground arith;
  media_within = record {
    tracked = record { few = omega arith; counted = tt; once = tt };
    bytes_bounded = omega arith;
  };
}

length-drop_group : (g : List ℕ) (gs : List (List ℕ)) → length (drop_group g gs) ≤ length gs
unfolding drop_group
length-drop_group g [] = omega arith
length-drop_group g (x ∷ xs) = ground (arith, length-drop_group g xs)

contains-drop_group :
    (g h : List ℕ) (gs : List (List ℕ))
    → contains h gs ≡ false
    → contains h (drop_group g gs) ≡ false
unfolding drop_group contains
contains-drop_group g h [] e = refl
contains-drop_group g h (x ∷ xs) e = ground (arith, contains-drop_group g h xs)

drop_group-Once : (g : List ℕ) (gs : List (List ℕ)) → Once gs → Once (drop_group g gs)
unfolding drop_group
drop_group-Once g [] o = tt
drop_group-Once g (x ∷ xs) o = elim (Bool-cases (bytes_eq x g)) [
  | inl e ↦ rw e (drop_group-Once g xs o.1)
  | inr e ↦ rw e (contains-drop_group g x xs o.0, drop_group-Once g xs o.1)
]

reserve-ceiling : (s : Session) (n : Meter) → ceiling s n ≤ ceiling (note_join_reserved s) n
unfolding note_join_reserved join_allowance
reserve-ceiling s n = ground arith

step-budgets :
    (blake3 : List ℕ → List ℕ) (secret : List ℕ) (s : Session) (e : Event) (n : Meter)
    → IsWellFormed s
    → (budget n (step blake3 secret s e).0).spent ≤ ceiling (step blake3 secret s e).0 n
unfolding step authenticated bootstrap rejected forget_subscription note_join_reserved bind_device
    bind_workspace budget join_allowance
step-budgets blake3 secret s (frame f now) n h =
    (handle-IsWellFormed blake3 secret s f now h).budgets n
step-budgets blake3 secret s (accepts remaining) n h = ground (arith, h.budgets n)
step-budgets blake3 secret s (bootstraps remaining) n h = ground (arith, h.budgets n)
step-budgets blake3 secret s (rejects code) n h = ground (arith, h.budgets n)
step-budgets blake3 secret s (forgets group) n h = ground (arith, h.budgets n)
step-budgets blake3 secret s reserves n h = ground (arith, h.budgets n)
step-budgets blake3 secret s (binds_device key) n h = ground (arith, h.budgets n)
step-budgets blake3 secret s (binds_workspace workspace) n h = ground (arith, h.budgets n)

-- A change of other fields, or of the groups alone.
carry :
    (s t : Session)
    → IsWellFormed s
    → length t.subscribed ≤ max_groups_per_connection
    → Once t.subscribed
    → t.requested ≡ s.requested
    → t.negotiated_version ≡ s.negotiated_version
    → t.media_budget ≡ s.media_budget
    → ((n : Meter) → (budget n t).spent ≤ ceiling t n)
    → IsWellFormed t
carry s t h few once requested version media budgets = record {
  subscribed_few = few;
  subscribed_once = once;
  requested_few = omega (arith, h.requested_few, ap (λ r. length r) requested);
  version_low = rw version h.version_low;
  version_high = rw version h.version_high;
  budgets = budgets;
  media_within = rw media h.media_within;
}

kept :
    (s t : Session)
    → IsWellFormed s
    → t.subscribed ≡ s.subscribed
    → t.requested ≡ s.requested
    → t.negotiated_version ≡ s.negotiated_version
    → t.media_budget ≡ s.media_budget
    → ((n : Meter) → (budget n t).spent ≤ ceiling t n)
    → IsWellFormed t
kept s t h subscribed =
    carry s t h (rw subscribed h.subscribed_few) (rw subscribed h.subscribed_once)

step-IsWellFormed :
    (blake3 : List ℕ → List ℕ) (secret : List ℕ) (s : Session) (e : Event)
    → IsWellFormed s
    → IsWellFormed (step blake3 secret s e).0
unfolding step authenticated bootstrap rejected forget_subscription note_join_reserved bind_device
    bind_workspace
step-IsWellFormed blake3 secret s (frame f now) h = handle-IsWellFormed blake3 secret s f now h
step-IsWellFormed blake3 secret s (accepts k) h =
    kept s _ h refl refl refl refl (λ n. step-budgets blake3 secret s (accepts k) n h)
step-IsWellFormed blake3 secret s (bootstraps k) h =
    kept s _ h refl refl refl refl (λ n. step-budgets blake3 secret s (bootstraps k) n h)
step-IsWellFormed blake3 secret s (rejects code) h =
    kept s _ h refl refl refl refl (λ n. step-budgets blake3 secret s (rejects code) n h)
step-IsWellFormed blake3 secret s reserves h =
    kept s _ h refl refl refl refl (λ n. step-budgets blake3 secret s reserves n h)
step-IsWellFormed blake3 secret s (binds_device key) h =
    kept s _ h refl refl refl refl (λ n. step-budgets blake3 secret s (binds_device key) n h)
step-IsWellFormed blake3 secret s (binds_workspace workspace) h =
    kept s _ h refl refl refl refl
      (λ n. step-budgets blake3 secret s (binds_workspace workspace) n h)
step-IsWellFormed blake3 secret s (forgets g) h =
    carry s _ h (omega (arith, length-drop_group g s.subscribed, h.subscribed_few))
      (drop_group-Once g s.subscribed h.subscribed_once) refl refl refl
      (λ n. step-budgets blake3 secret s (forgets g) n h)

after-IsWellFormed :
    (blake3 : List ℕ → List ℕ) (secret : List ℕ) (es : List Event) (s : Session)
    → IsWellFormed s
    → IsWellFormed (after blake3 secret s es)
unfolding after
after-IsWellFormed blake3 secret [] s h = h
after-IsWellFormed blake3 secret (e ∷ es) s h =
    after-IsWellFormed blake3 secret es (step blake3 secret s e).0
      (step-IsWellFormed blake3 secret s e h)

-- Whatever calls the relay makes on a new session, in whatever order (frames, outcomes of
-- authentication, forgotten subscriptions, reserved places, bound names): it holds at most 256
-- subscriptions, each group once, and at most 256 requested groups, its negotiated version is
-- between 1 and 4, no budget has spent more than its ceiling, and the media budget is within its
-- limits.
pub reached-IsWellFormed :
    (blake3 : List ℕ → List ℕ) (secret : List ℕ) (config : Config) (nonce : ℕ) (digest : List ℕ)
    (es : List Event)
    → IsWellFormed (after blake3 secret (new config nonce digest) es)
reached-IsWellFormed blake3 secret config nonce digest es =
    after-IsWellFormed blake3 secret es (new config nonce digest)
      (new-IsWellFormed config nonce digest)
