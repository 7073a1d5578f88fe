-- ===== src/Hub.antt =====
-- backend/wealdrelay/src/hub.rs: the live subscriptions of the relay. The sender of a connection and
-- what it does with a frame (`try_queue` of backend/wealdrelay/src/ws.rs, over a channel of a library)
-- are parameters; `senders` answers each connection's.
pub mod Release
pub mod Fanout
pub mod Members
pub mod Refine
use wealdrelay.Base.{
  ℕ, suc, ◌+◌, ◌%◌, ◌^◌, Bool, true, false, ◌&&◌, ◌||◌, not, Option, none, some, List, [], ◌∷◌,
  ◌++◌, ltb, leb, ◌==◌, if◌then◌else◌, length, lookup, insert, retain, remove, map_values,
}
use mathlib.Core.Option
use wealdrelay.Frame.Body.{Frame, sub_ack, live, call, handshake, push}
use wealdrelay.Push.Category.{saturating_add}
use wealdrelay.Calls.Registry
use wealdrelay.Calls.Registry.{Queued}

abbrev pub min_fanout_version : ℕ
min_fanout_version = 1

abbrev pub max_held_handshakes : ℕ
max_held_handshakes = 256

pub data Delivery : Type 0 where
  sent not_spoken shed downgraded gone : Delivery

pub record Subscriber : Type 0 where
  pub id : ℕ
  pub protocol_version : ℕ
  pub downgrade_owed : Bool
  pub held_handshakes : Option (List Frame)

pub record Hub : Type 0 where
  pub groups : List (List ℕ × List Subscriber)
  pub next_id : ℕ
  pub downgrades : ℕ
  pub shed_count : ℕ
  pub principals : List (List ℕ × List ℕ)

unfoldable pub connect : Hub → Hub × ℕ
connect h = (record h { next_id = (h.next_id + 1) % 2 ^ 64 }, h.next_id)

unfoldable pub downgrade_frame : List ℕ → Frame
downgrade_frame group = sub_ack group 0

-- `subscribers.iter().any(|subscriber| subscriber.id == id)`
unfoldable pub is_in : ℕ → List Subscriber → Bool
is_in id [] = false
is_in id (s ∷ ss) = (s.id == id) || is_in id ss

unfoldable pub without : ℕ → List Subscriber → List Subscriber
without id [] = []
without id (s ∷ ss) = if s.id == id then without id ss else s ∷ without id ss

-- Both ways to subscribe: `held` is `Some` when the live handshakes wait for the replay.
unfoldable pub subscribe : Hub → List ℕ → ℕ → ℕ → Option (List Frame) → Hub
unfolding lookup insert is_in
subscribe h group id version held =
    let subscribers = Option.get_or (lookup group h.groups) [] in
    let entry : Subscriber = record {
      id = id;
      protocol_version = version;
      downgrade_owed = false;
      held_handshakes = held;
    } in
    record h {
      groups =
          insert group (if is_in id subscribers then subscribers else subscribers ++ (entry ∷ []))
            h.groups;
    }

unfoldable pub holds : Hub → List ℕ → ℕ → Bool
unfolding lookup is_in
holds h group id = is_in id (Option.get_or (lookup group h.groups) [])

unfoldable pub identify : Hub → List ℕ → ℕ → Hub
unfolding lookup insert Registry.has
identify h entry_hash id =
    let connections = Option.get_or (lookup entry_hash h.principals) [] in
    record h {
      principals =
          insert entry_hash
            (if Registry.has id connections then connections else connections ++ (id ∷ []))
            h.principals;
    }

abbrev pub is_empty {ℓ} : {A : Type ℓ} → List A → Bool
is_empty [] = true
is_empty (x ∷ xs) = false

unfoldable pub disconnect : Hub → ℕ → Hub
unfolding map_values retain without Registry.without
disconnect h id = record h {
  groups = retain (λ subscribers. not (is_empty subscribers)) (map_values (without id) h.groups);
  principals =
      retain (λ connections. not (is_empty connections))
        (map_values (Registry.without id) h.principals);
}

unfoldable pub disconnect_all : Hub → List ℕ → Hub
unfolding disconnect
disconnect_all h [] = h
disconnect_all h (id ∷ ids) = disconnect_all (disconnect h id) ids

abbrev pub is_ephemeral : Frame → Bool
is_ephemeral (live _ _ _) = true
is_ephemeral (call _ _ _ _ _) = true
is_ephemeral _ = false

abbrev pub is_undowngradable : Frame → Bool
is_undowngradable (handshake _ _ _) = true
is_undowngradable _ = false

-- The connections that the loop found gone, and the frames that it shed.
unfoldable pub gone_ids : List (ℕ × Delivery) → List ℕ
gone_ids [] = []
gone_ids ((id, gone) ∷ rest) = id ∷ gone_ids rest
gone_ids ((id, _) ∷ rest) = gone_ids rest

unfoldable pub shed_frames : List (ℕ × Delivery) → ℕ
shed_frames [] = 0
shed_frames ((id, shed) ∷ rest) = 1 + shed_frames rest
shed_frames ((id, _) ∷ rest) = shed_frames rest

module _ (Sender : Type 0) where
  -- What one subscriber and its sender are after a frame, and what became of the frame.
  pub record Outcome : Type 0 where
    pub subscriber : Subscriber
    pub sender : Sender
    pub delivery : Delivery
    pub new_debt : Bool

  -- What the loop over the subscribers leaves.
  pub record Fanned : Type 0 where
    pub subscribers : List Subscriber
    pub senders : ℕ → Sender
    pub outcomes : List (ℕ × Delivery)
    pub debts : ℕ

module _ {Sender : Type 0} where
  -- The senders with one of them replaced.
  unfoldable pub replace : (ℕ → Sender) → ℕ → Sender → ℕ → Sender
  replace senders id sender j = if j == id then sender else senders j

module _ {Sender : Type 0} (try_queue : Sender → Frame → Sender × Queued)
    (evict : Sender → Sender) where
  abbrev outcome : Subscriber → Sender → Delivery → Outcome Sender
  outcome s sender delivery = record {
    subscriber = s;
    sender = sender;
    delivery = delivery;
    new_debt = false;
  }

  -- A frame that a full queue sheds.
  unfoldable pub send_ephemeral : Frame → Subscriber → Sender → Outcome Sender
  send_ephemeral frame s sender =
      let (after, queued) = try_queue sender frame in
      elim queued [
        | Registry.sent ↦ outcome s after sent
        | Registry.full ↦ outcome s after shed
        | Registry.closed ↦ outcome s after gone
      ]

  -- A frame that a full queue turns into a debt, or for a handshake into an eviction.
  unfoldable pub send_durable : Frame → Subscriber → Sender → Outcome Sender
  send_durable frame s sender =
      let (after, queued) = try_queue sender frame in
      elim queued [
        | Registry.sent ↦ outcome s after sent
        | Registry.full ↦ if is_undowngradable frame then outcome s (evict after) gone else record {
          subscriber = record s { downgrade_owed = true };
          sender = after;
          delivery = downgraded;
          new_debt = true;
        }
        | Registry.closed ↦ outcome s after gone
      ]

  unfoldable pub send : Frame → Subscriber → Sender → Outcome Sender
  unfolding send_ephemeral send_durable
  send frame s sender =
      if is_ephemeral frame then send_ephemeral frame s sender else send_durable frame s sender

  -- A debt is paid before anything else is sent.
  unfoldable pub settle_then_send : List ℕ → Frame → Subscriber → Sender → Outcome Sender
  unfolding send downgrade_frame
  settle_then_send group frame s sender =
      if s.downgrade_owed
      then (let (after, queued) = try_queue sender (downgrade_frame group) in
          elim queued [
            | Registry.sent ↦ send frame (record s { downgrade_owed = false }) after
            | Registry.full ↦
                if is_undowngradable frame
                then outcome s (evict after) gone
                else outcome s after downgraded
            | Registry.closed ↦ outcome s after gone
          ])
      else send frame s sender

  -- A handshake waits behind the replay of a subscriber that is still being sent it.
  unfoldable pub hold_back : Frame → Subscriber → Sender → List Frame → Outcome Sender
  hold_back frame s sender held =
      if ltb (length held) max_held_handshakes
      then outcome (record s { held_handshakes = some (held ++ (frame ∷ [])) }) sender sent
      else outcome s (evict sender) gone

  unfoldable pub deliver : List ℕ → Frame → ℕ → Subscriber → Sender → Outcome Sender
  unfolding settle_then_send hold_back
  deliver group frame minimum_version s sender =
      if ltb s.protocol_version minimum_version
      then outcome s sender not_spoken
      else elim (if is_undowngradable frame then s.held_handshakes else none) [
        | some held ↦ hold_back frame s sender held
        | none ↦ settle_then_send group frame s sender
      ]

  unfoldable pub fan : List ℕ → Frame → ℕ → ℕ → (ℕ → Sender) → List Subscriber → Fanned Sender
  unfolding deliver replace
  fan group frame except minimum_version senders [] = record {
    subscribers = [];
    senders = senders;
    outcomes = [];
    debts = 0;
  }
  fan group frame except minimum_version senders (s ∷ ss) =
      if s.id == except
      then (let rest = fan group frame except minimum_version senders ss in
          record rest { subscribers = s ∷ rest.subscribers })
      else (let one = deliver group frame minimum_version s (senders s.id) in
          let rest = fan group frame except minimum_version (replace senders s.id one.sender) ss in
          record {
            subscribers = one.subscriber ∷ rest.subscribers;
            senders = rest.senders;
            outcomes = (s.id, one.delivery) ∷ rest.outcomes;
            debts = (if one.new_debt then 1 else 0) + rest.debts;
          })

  -- What `fanout_frame` does with the subscribers that it finds.
  unfoldable pub fanout_to :
      Hub
      → (ℕ → Sender)
      → List ℕ
      → Frame
      → ℕ
      → ℕ
      → Option (List Subscriber)
      → Hub × (ℕ → Sender) × List (ℕ × Delivery)
  unfolding fan insert gone_ids shed_frames disconnect_all
  fanout_to h senders group frame except minimum_version none = (h, senders, [])
  fanout_to h senders group frame except minimum_version (some subscribers) =
      let fanned = fan group frame except minimum_version senders subscribers in
      let h' = record h {
        groups = insert group fanned.subscribers h.groups;
        downgrades = h.downgrades + fanned.debts;
        shed_count = h.shed_count + shed_frames fanned.outcomes;
      } in
      (disconnect_all h' (gone_ids fanned.outcomes), fanned.senders, fanned.outcomes)

  unfoldable pub fanout_frame :
      Hub → (ℕ → Sender) → List ℕ → Frame → ℕ → ℕ → Hub × (ℕ → Sender) × List (ℕ × Delivery)
  unfolding lookup fanout_to
  fanout_frame h senders group frame except minimum_version =
      fanout_to h senders group frame except minimum_version (lookup group h.groups)

  -- `fanout`, of one envelope.
  unfoldable pub fanout :
      Hub → (ℕ → Sender) → List ℕ → List ℕ → ℕ → Hub × (ℕ → Sender) × List (ℕ × Delivery)
  unfolding fanout_frame
  fanout h senders group envelope except =
      fanout_frame h senders group (push envelope) except min_fanout_version
