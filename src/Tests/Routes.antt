-- ===== src/Tests/Routes.antt =====
-- A call and a group with subscribers, for backend/wealdrelay/src/calls/mod.rs and hub.rs. A sender is
-- the number of its free places.
use wealdrelay.Base.{ℕ, zero, suc, ◌≡◌, refl, true, false, none, List, [], ◌∷◌, replicate, lookup}
use mathlib.Core.Option
use wealdrelay.Frame.Body
use wealdrelay.Frame.Body.{Frame}
use wealdrelay.Calls.Registry
use wealdrelay.Calls.Registry.{CallRegistry, Queued, sent, full}
use wealdrelay.Calls.Registry.Members.{
  Op, step, call_members, joining, leaving, routing, step-call_members,
}
use wealdrelay.Calls.Registry.Sound.{IsSound, run, reached-IsSound}
use wealdrelay.Hub
use wealdrelay.Hub.{Hub, Subscriber, deliver, fanout_frame}
use wealdrelay.Hub.Fanout.{answered, fanout_frame-answered, deliver-owed}
use wealdrelay.Hub.Refine
use wealdrelay.Hub.Refine.{step-subscriptions}

abbrev call_id : List ℕ
call_id = replicate 16 1

abbrev ops : List Op
ops =
    joining call_id (2 ∷ []) 7 1_000
    ∷ joining call_id (2 ∷ []) 8 1_100
    ∷ routing call_id 7 (λ c. Registry.closed) 1_200
    ∷ leaving call_id 7
    ∷ []

reached-IsSound_example : IsSound (run (Registry.new 8) ops)
reached-IsSound_example = reached-IsSound 8 ops

-- One call of connections 7 and 8.
abbrev registry : CallRegistry
registry = record {
  calls =
      (call_id, record { group = 2 ∷ []; participants = 7 ∷ 8 ∷ []; last_activity = 1_100 }) ∷ [];
  max_concurrent = 8;
  shed = 0;
  denied = 0;
  share_refused = 0;
}

step-call_members_example :
    Registry.holds (step registry (routing call_id 7 (λ c. Registry.closed) 1_200)) call_id 8
    ≡ call_members registry (routing call_id 7 (λ c. Registry.closed) 1_200) call_id 8
step-call_members_example =
    step-call_members registry (routing call_id 7 (λ c. Registry.closed) 1_200) call_id 8
      (unfold lookup in refl, tt)

abbrev put : ℕ → Frame → ℕ × Queued
put zero frame = (zero, full)
put (suc n) frame = (n, sent)

abbrev keep : ℕ → ℕ
keep n = n

-- A subscriber that owes a notice, and one that does not.
abbrev owing : Subscriber
owing = record { id = 7; protocol_version = 4; downgrade_owed = true; held_handshakes = none }

abbrev hub : Hub
hub = record {
  groups =
      (
        3 ∷ [],
        owing
            ∷ record {
              id = 8;
              protocol_version = 4;
              downgrade_owed = false;
              held_handshakes = none;
            }
            ∷ [],
      )
      ∷ [];
  next_id = 9;
  downgrades = 0;
  shed_count = 0;
  principals = [];
}

-- Connection 8 has no place left.
abbrev senders : ℕ → ℕ
senders zero = 0
senders (suc c) = elim c [ zero ↦ 0 | suc d ↦ 2 ]

abbrev beat : Frame
beat = Body.push (1 ∷ [])

fanout_frame-answered_example :
    answered beat 9
      (Option.get_or (lookup (3 ∷ []) hub.groups) [])
      (fanout_frame put keep hub senders (3 ∷ []) beat 9 1).2
    ≡ true
fanout_frame-answered_example = fanout_frame-answered put keep hub senders (3 ∷ []) beat 9 1

deliver-owed_example :
    let notice = put 2 (Hub.downgrade_frame (3 ∷ [])) in
    let one = deliver put keep (3 ∷ []) beat 1 owing 2 in
    (notice.1 ≡ sent)
    × ((put notice.0 beat).1 ≡ sent)
    × (one.sender ≡ (put notice.0 beat).0)
    × (one.subscriber.downgrade_owed ≡ false)
deliver-owed_example =
    deliver-owed put keep (3 ∷ []) beat 1 owing 2 refl refl (unfold deliver in refl)

step-subscriptions_example :
    Hub.holds
      (Refine.step put keep keep hub senders (Refine.fanning (3 ∷ []) beat 9 1)).0
      (3 ∷ [])
      7
    ≡ Refine.subscriptions put keep keep hub senders (Refine.fanning (3 ∷ []) beat 9 1) (3 ∷ []) 7
step-subscriptions_example =
    step-subscriptions put keep keep hub senders (Refine.fanning (3 ∷ []) beat 9 1) (3 ∷ []) 7
      (unfold lookup in refl, tt)
