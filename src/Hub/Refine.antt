-- ===== src/Hub/Refine.antt =====
-- backend/wealdrelay/src/hub.rs: the calls on the hub, against the relation that each is to leave.
use wealdrelay.Base.{
  ℕ, ◌≡◌, refl, ap, arith, Bool, false, ◌&&◌, ◌||◌, not, Option, none, some, List, [], ◌∷◌, ◌==◌,
  bytes_eq, bytes_eq_sound, lookup, insert, remove, Keyed, lookup-insert, insert-Keyed, Bool-cases,
  inl, inr,
}
use mathlib.Core.Option
use wealdrelay.Frame.Body.{Frame}
use wealdrelay.Calls.Registry
use wealdrelay.Calls.Registry.{Queued}
use wealdrelay.Hub.{
  Hub, Subscriber, replace, holds, is_in, subscribe, identify, disconnect, fanout_frame, gone_ids,
  downgrade_frame,
}
use wealdrelay.Hub.Release.{
  take_held, held_of, replay, release_held, release_handshakes, evict_principal, settle_group,
  settle_groups, settle_downgrades,
}
use wealdrelay.Hub.Members.{
  subscribe-holds, disconnect-holds, disconnect_all-holds, fanout_frame-holds,
}

is_in-take_held : (id c : ℕ) (ss : List Subscriber) → is_in c (take_held id ss) ≡ is_in c ss
unfolding is_in take_held
is_in-take_held id c [] = refl
is_in-take_held id c (s ∷ ss) = ground (arith, is_in-take_held id c ss)

-- One group's subscribers replaced by a list of the same connections.
regrouped :
    (h : Hub) (group : List ℕ) (after : List Subscriber) (g : List ℕ) (c : ℕ)
    → is_in c after ≡ is_in c (Option.get_or (lookup group h.groups) [])
    → holds (record h { groups = insert group after h.groups }) g c ≡ holds h g c
unfolding holds
regrouped h group after g c same = elim (Bool-cases (bytes_eq group g)) [
  | inl b ↦
      let is : group ≡ g = bytes_eq_sound group g b in
      ground (arith, lookup-insert g group after h.groups, ap (λ k. lookup k h.groups) is)
  | inr b ↦ ground (arith, lookup-insert g group after h.groups)
]

module _ {Sender : Type 0} (try_queue : Sender → Frame → Sender × Queued)
    (evict close : Sender → Sender) where
  settle_group-is_in :
      (group : List ℕ) (senders : ℕ → Sender) (ss : List Subscriber) (c : ℕ)
      → is_in c (settle_group try_queue evict close group senders ss).0 ≡ is_in c ss
  unfolding settle_group is_in
  settle_group-is_in group senders [] c = refl
  settle_group-is_in group senders (s ∷ ss) c = ground (
    arith,
    settle_group-is_in group senders ss c,
    settle_group-is_in group
        (replace senders s.id (try_queue (senders s.id) (downgrade_frame group)).0) ss c,
  )

  settle_groups-member :
      (senders : ℕ → Sender) (m : List (List ℕ × List Subscriber)) (g : List ℕ) (c : ℕ)
      → is_in c (Option.get_or (lookup g (settle_groups try_queue evict close senders m).0) [])
        ≡ is_in c (Option.get_or (lookup g m) [])
  unfolding settle_groups lookup
  settle_groups-member senders [] g c = refl
  settle_groups-member senders ((group, ss) ∷ m) g c =
      let after = (settle_group try_queue evict close group senders ss).1 in
      ground (arith, settle_group-is_in group senders ss c, settle_groups-member after m g c)

  settle_downgrades-holds :
      (h : Hub) (senders : ℕ → Sender) (g : List ℕ) (c : ℕ)
      → holds (settle_downgrades try_queue evict close h senders).0 g c ≡ holds h g c
  unfolding settle_downgrades holds
  settle_downgrades-holds h senders g c = settle_groups-member senders h.groups g c

  -- Whether the release of a connection's handshakes ends by its eviction.
  evicts : Hub → (ℕ → Sender) → List ℕ → ℕ → ℕ → Bool
  evicts h senders group id replayed_to =
      elim (held_of id (Option.get_or (lookup group h.groups) [])) [
        | none ↦ false
        | some held ↦ (replay try_queue evict close replayed_to (senders id) held).1
      ]

  release_held-holds :
      (h : Hub) (senders : ℕ → Sender) (group : List ℕ) (id replayed_to : ℕ)
      (o : Option (List Frame)) (g : List ℕ) (c : ℕ)
      → Keyed h.groups
      → holds (release_held try_queue evict close h senders group id replayed_to o).0 g c ≡ (
          holds h g c
          && not (
              (elim o [
                | none ↦ false
                | some held ↦ (replay try_queue evict close replayed_to (senders id) held).1
              ])
              && (id == c)))
  unfolding release_held
  release_held-holds h senders group id replayed_to none g c d = ground arith
  release_held-holds h senders group id replayed_to (some held) g c d =
      let ss = Option.get_or (lookup group h.groups) [] in
      let after = take_held id ss in
      let same = regrouped h group after g c (is_in-take_held id c ss) in
      let gone =
        disconnect-holds (record h { groups = insert group after h.groups }) id g c
          (insert-Keyed group after h.groups d) in
      ground (arith, same, gone)

  -- The calls on the hub.
  pub data Op : Type 0 where
    subscribing : List ℕ → ℕ → ℕ → Option (List Frame) → Op
    releasing : List ℕ → ℕ → ℕ → Op
    identifying : List ℕ → ℕ → Op
    evicting : List ℕ → Op
    disconnecting : ℕ → Op
    fanning : List ℕ → Frame → ℕ → ℕ → Op
    settling : Op

  unfoldable pub step : Hub → (ℕ → Sender) → Op → Hub × (ℕ → Sender)
  unfolding subscribe release_handshakes identify evict_principal disconnect fanout_frame
      settle_downgrades
  step h senders (subscribing group id version held) = (subscribe h group id version held, senders)
  step h senders (releasing group id replayed_to) =
      release_handshakes try_queue evict close h senders group id replayed_to
  step h senders (identifying entry_hash id) = (identify h entry_hash id, senders)
  step h senders (evicting entry_hash) =
      let (after, left, _) = evict_principal try_queue evict close h senders entry_hash in
      (after, left)
  step h senders (disconnecting id) = (disconnect h id, senders)
  step h senders (fanning group frame except minimum_version) =
      let (after, left, _) =
        fanout_frame try_queue evict h senders group frame except minimum_version in
      (after, left)
  step h senders settling =
      let (after, left, _) = settle_downgrades try_queue evict close h senders in (after, left)

  -- What each call does to the relation between groups and connections.
  pub subscriptions : Hub → (ℕ → Sender) → Op → List ℕ → ℕ → Bool
  subscriptions h senders (subscribing group id version held) g c =
      holds h g c || (bytes_eq group g && (id == c))
  subscriptions h senders (releasing group id replayed_to) g c =
      holds h g c && not (evicts h senders group id replayed_to && (id == c))
  subscriptions h senders (identifying entry_hash id) g c = holds h g c
  subscriptions h senders (evicting entry_hash) g c =
      holds h g c && not (Registry.has c (Option.get_or (lookup entry_hash h.principals) []))
  subscriptions h senders (disconnecting id) g c = holds h g c && not (id == c)
  subscriptions h senders (fanning group frame except minimum_version) g c =
      holds h g c
      && not (
          Registry.has c (
            gone_ids (fanout_frame try_queue evict h senders group frame except minimum_version).2))
  subscriptions h senders settling g c = holds h g c

  -- On a hub with each group once, every call changes the relation between groups and connections
  -- exactly as specified: subscribing adds one pair, disconnecting takes one connection out of
  -- every group, evicting a principal takes out its connections, fanning out takes out the
  -- connections that it reports as gone, ending a replay takes the connection out when the replay
  -- evicts it, and identifying and settling change nothing.
  pub step-subscriptions :
      (h : Hub) (senders : ℕ → Sender) (op : Op) (g : List ℕ) (c : ℕ)
      → Keyed h.groups
      → holds (step h senders op).0 g c ≡ subscriptions h senders op g c
  unfolding step subscriptions evicts
  step-subscriptions h senders (subscribing group id version held) g c d =
      subscribe-holds h group id version held g c
  step-subscriptions h senders (releasing group id replayed_to) g c d =
      unfold release_handshakes in
      release_held-holds h senders group id replayed_to
        (held_of id (Option.get_or (lookup group h.groups) [])) g c d
  step-subscriptions h senders (identifying entry_hash id) g c d = unfold identify holds in refl
  step-subscriptions h senders (evicting entry_hash) g c d =
      unfold evict_principal holds in
      disconnect_all-holds (record h { principals = remove entry_hash h.principals })
        (Option.get_or (lookup entry_hash h.principals) []) g c d
  step-subscriptions h senders (disconnecting id) g c d = disconnect-holds h id g c d
  step-subscriptions h senders (fanning group frame except minimum_version) g c d =
      fanout_frame-holds try_queue evict h senders group frame except minimum_version g c d
  step-subscriptions h senders settling g c d = settle_downgrades-holds h senders g c
