-- ===== src/Hub/Release.antt =====
-- backend/wealdrelay/src/hub.rs: the end of a replay, the eviction of a principal, and the notices that
-- are owed. `close` is the sender's.
use wealdrelay.Base.{
  ℕ, suc, ◌+◌, Bool, true, false, not, Option, none, some, List, [], ◌∷◌, ltb, ◌==◌, if◌then◌else◌,
  length, lookup, insert, remove,
}
use mathlib.Core.Option
use wealdrelay.Frame.Body.{Frame, handshake}
use wealdrelay.Push.Category.{saturating_add}
use wealdrelay.Calls.Registry
use wealdrelay.Calls.Registry.{Queued}
use wealdrelay.Hub.{Hub, Subscriber, replace, disconnect, disconnect_all, downgrade_frame}

abbrev pub is_sent : Queued → Bool
is_sent Registry.sent = true
is_sent _ = false

-- The sequence number of a handshake.
abbrev pub handshake_seq : Frame → Option ℕ
handshake_seq (handshake _ seq _) = some seq
handshake_seq _ = none

-- `iter_mut().find(|s| s.id == id)`, and its handshakes.
unfoldable pub held_of : ℕ → List Subscriber → Option (List Frame)
held_of id [] = none
held_of id (s ∷ ss) = if s.id == id then s.held_handshakes else held_of id ss

-- `take()` on the handshakes of the first subscriber with this id.
unfoldable pub take_held : ℕ → List Subscriber → List Subscriber
take_held id [] = []
take_held id (s ∷ ss) =
    if s.id == id then record s { held_handshakes = none } ∷ ss else s ∷ take_held id ss

module _ {Sender : Type 0} (try_queue : Sender → Frame → Sender × Queued)
    (evict close : Sender → Sender) where
  -- The loop over the handshakes that waited: the sender, and whether it was evicted.
  unfoldable pub replay : ℕ → Sender → List Frame → Sender × Bool
  replay next sender [] = (sender, false)
  replay next sender (frame ∷ held) = elim (handshake_seq frame) [
    | none ↦ replay next sender held
    | some seq ↦
        if ltb seq next
        then replay next sender held
        else (let (after, queued) = try_queue sender frame in
            let rest = replay (saturating_add seq 1) after held in
            if is_sent queued then rest else (evict after, true))
  ]

  -- What `release_handshakes` does with the handshakes that it finds.
  unfoldable pub release_held :
      Hub → (ℕ → Sender) → List ℕ → ℕ → ℕ → Option (List Frame) → Hub × (ℕ → Sender)
  unfolding lookup insert take_held replay replace disconnect
  release_held h senders group id replayed_to none = (h, senders)
  release_held h senders group id replayed_to (some held) =
      let subscribers = take_held id (Option.get_or (lookup group h.groups) []) in
      let h' = record h { groups = insert group subscribers h.groups } in
      let (sender, evicted) = replay replayed_to (senders id) held in
      (if evicted then disconnect h' id else h', replace senders id sender)

  unfoldable pub release_handshakes : Hub → (ℕ → Sender) → List ℕ → ℕ → ℕ → Hub × (ℕ → Sender)
  unfolding lookup held_of release_held
  release_handshakes h senders group id replayed_to =
      release_held h senders group id replayed_to
        (held_of id (Option.get_or (lookup group h.groups) []))

  -- Each connection's sender, evicted and closed.
  unfoldable pub evict_each : (ℕ → Sender) → List ℕ → ℕ → Sender
  unfolding replace
  evict_each senders [] = senders
  evict_each senders (id ∷ ids) = evict_each (replace senders id (close (evict (senders id)))) ids

  unfoldable pub evict_principal : Hub → (ℕ → Sender) → List ℕ → Hub × (ℕ → Sender) × ℕ
  unfolding lookup remove disconnect_all evict_each
  evict_principal h senders entry_hash =
      let taken = Option.get_or (lookup entry_hash h.principals) [] in
      let h' = record h { principals = remove entry_hash h.principals } in
      (disconnect_all h' taken, evict_each senders taken, length taken)

  -- The subscribers of one group, the senders and the notices sent.
  unfoldable pub settle_group :
      List ℕ → (ℕ → Sender) → List Subscriber → List Subscriber × (ℕ → Sender) × ℕ
  unfolding downgrade_frame replace
  settle_group group senders [] = ([], senders, 0)
  settle_group group senders (s ∷ ss) =
      if not s.downgrade_owed
      then (let (rest, after, n) = settle_group group senders ss in (s ∷ rest, after, n))
      else (let (sender, queued) = try_queue (senders s.id) (downgrade_frame group) in
          let (rest, after, n) = settle_group group (replace senders s.id sender) ss in
          if is_sent queued
          then (record s { downgrade_owed = false } ∷ rest, after, suc n)
          else (s ∷ rest, after, n))

  unfoldable pub settle_groups :
      (ℕ → Sender)
      → List (List ℕ × List Subscriber)
      → List (List ℕ × List Subscriber) × (ℕ → Sender) × ℕ
  unfolding settle_group
  settle_groups senders [] = ([], senders, 0)
  settle_groups senders ((group, ss) ∷ groups) =
      let (subscribers, after, n) = settle_group group senders ss in
      let (rest, last, m) = settle_groups after groups in ((group, subscribers) ∷ rest, last, n + m)

  unfoldable pub settle_downgrades : Hub → (ℕ → Sender) → Hub × (ℕ → Sender) × ℕ
  unfolding settle_groups
  settle_downgrades h senders =
      let (groups, after, n) = settle_groups senders h.groups in
      (record h { groups = groups }, after, n)
