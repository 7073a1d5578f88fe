-- ===== src/Hub/Members.antt =====
-- backend/wealdrelay/src/hub.rs: the hub as a relation between groups and connections.
use wealdrelay.Base.{
  ℕ, ◌+◌, ◌≡◌, refl, ap, arith, Bool, true, false, ◌&&◌, ◌||◌, not, Option, none, some, List, [],
  ◌∷◌, ◌++◌, if◌then◌else◌, ◌==◌, bytes_eq, bytes_eq_sound, lookup, insert, map_values, Keyed,
  lookup-insert, lookup-retain, lookup-map_values, insert-Keyed, retain-Keyed, map_values-Keyed,
  Option-cases, Bool-cases, inl, inr,
}
use mathlib.Core.Option
use wealdrelay.Frame.Body.{Frame}
use wealdrelay.Calls.Registry
use wealdrelay.Calls.Registry.{Queued}
use wealdrelay.Hub.{
  Hub, Subscriber, holds, is_in, without, is_empty, subscribe, disconnect, disconnect_all, fan,
  fanout_to, fanout_frame, gone_ids, shed_frames, deliver, replace,
}
use wealdrelay.Hub.Fanout.{deliver-id}

is_in-append :
    (c : ℕ) (s : Subscriber) (ss : List Subscriber)
    → is_in c (ss ++ (s ∷ [])) ≡ (is_in c ss || (s.id == c))
unfolding is_in
is_in-append c s [] = ground arith
is_in-append c s (x ∷ xs) = ground (arith, is_in-append c s xs)

is_in-without :
    (c d : ℕ) (ss : List Subscriber) → is_in c (without d ss) ≡ (is_in c ss && not (d == c))
unfolding is_in without
is_in-without c d [] = ground arith
is_in-without c d (x ∷ xs) = ground (arith, is_in-without c d xs)

is_in-empty : (c : ℕ) (ss : List Subscriber) → is_empty ss ≡ true → is_in c ss ≡ false
unfolding is_in
is_in-empty c [] h = refl
is_in-empty c (x ∷ xs) h = cc

-- Membership as it is read off one group.
abbrev member : ℕ → Option (List Subscriber) → Bool
member c o = is_in c (Option.get_or o [])

pub subscribe-holds :
    (h : Hub) (group : List ℕ) (id version : ℕ) (held : Option (List Frame)) (g : List ℕ) (c : ℕ)
    → holds (subscribe h group id version held) g c
      ≡ (holds h g c || (bytes_eq group g && (id == c)))
unfolding subscribe holds
subscribe-holds h group id version held g c =
    let subscribers = Option.get_or (lookup group h.groups) [] in
    let entry : Subscriber = record {
      id = id;
      protocol_version = version;
      downgrade_owed = false;
      held_handshakes = held;
    } in
    let after = if is_in id subscribers then subscribers else subscribers ++ (entry ∷ []) in
    elim (Bool-cases (bytes_eq group g)) [
      | inl e ↦
          let same : group ≡ g = bytes_eq_sound group g e in
          ground (
            arith,
            lookup-insert g group after h.groups,
            is_in-append c entry subscribers,
            ap (λ k. lookup k h.groups) same,
          )
      | inr e ↦ ground (arith, lookup-insert g group after h.groups)
    ]

pub disconnect-holds :
    (h : Hub) (id : ℕ) (g : List ℕ) (c : ℕ)
    → Keyed h.groups
    → holds (disconnect h id) g c ≡ (holds h g c && not (id == c))
unfolding disconnect holds
disconnect-holds h id g c d =
    let parted = map_values (without id) h.groups in
    let kept =
      lookup-retain (λ subscribers. not (is_empty subscribers)) g parted
        (map_values-Keyed _ h.groups d) in
    let seen = lookup-map_values (without id) g h.groups in
    elim (Option-cases (lookup g h.groups)) [
      | inl e ↦ ground (arith, kept, seen, is_in-empty c [])
      | inr (ss, e) ↦ ground (
        arith,
        kept,
        seen,
        is_in-without c id ss,
        is_in-empty c (without id ss),
        is_in-empty c [],
      )
    ]

pub disconnect-Keyed : (h : Hub) (id : ℕ) → Keyed h.groups → Keyed (disconnect h id).groups
unfolding disconnect
disconnect-Keyed h id d = retain-Keyed _ _ (map_values-Keyed _ h.groups d)

pub disconnect_all-holds :
    (h : Hub) (ids : List ℕ) (g : List ℕ) (c : ℕ)
    → Keyed h.groups
    → holds (disconnect_all h ids) g c ≡ (holds h g c && not (Registry.has c ids))
unfolding disconnect_all Registry.has
disconnect_all-holds h [] g c d = ground arith
disconnect_all-holds h (id ∷ ids) g c d = ground (
  arith,
  disconnect_all-holds (disconnect h id) ids g c (disconnect-Keyed h id d),
  disconnect-holds h id g c d,
)

module _ {Sender : Type 0} (try_queue : Sender → Frame → Sender × Queued)
    (evict : Sender → Sender) where
  fan-is_in :
      (group : List ℕ) (frame : Frame) (except minimum_version : ℕ) (senders : ℕ → Sender)
      (ss : List Subscriber) (c : ℕ)
      → is_in c (fan try_queue evict group frame except minimum_version senders ss).subscribers
        ≡ is_in c ss
  unfolding fan is_in
  fan-is_in group frame except minimum_version senders [] c = refl
  fan-is_in group frame except minimum_version senders (s ∷ ss) c =
      let one = deliver try_queue evict group frame minimum_version s (senders s.id) in
      elim (Bool-cases (s.id == except)) [
        | inl e ↦ rw e (ground (arith, fan-is_in group frame except minimum_version senders ss c))
        | inr e ↦ rw e (
            ground (
              arith,
              deliver-id try_queue evict group frame minimum_version s (senders s.id),
              fan-is_in group frame except minimum_version (replace senders s.id one.sender) ss c,
            ))
      ]

  fanned-holds :
      (h : Hub) (group : List ℕ) (ss after : List Subscriber) (debts sheds : ℕ) (g : List ℕ) (c : ℕ)
      → lookup group h.groups ≡ some ss
      → is_in c after ≡ is_in c ss
      → holds
          (record h {
            groups = insert group after h.groups;
            downgrades = debts;
            shed_count = sheds;
          })
          g
          c
        ≡ holds h g c
  unfolding holds
  fanned-holds h group ss after debts sheds g c e same = elim (Bool-cases (bytes_eq group g)) [
    | inl b ↦
        let is : group ≡ g = bytes_eq_sound group g b in
        ground (arith, lookup-insert g group after h.groups, ap (λ k. lookup k h.groups) is)
    | inr b ↦ ground (arith, lookup-insert g group after h.groups)
  ]

  fanout_to-holds :
      (h : Hub) (senders : ℕ → Sender) (group : List ℕ) (frame : Frame) (except minimum_version : ℕ)
      (o : Option (List Subscriber)) (g : List ℕ) (c : ℕ)
      → Keyed h.groups
      → lookup group h.groups ≡ o
      → let after = fanout_to try_queue evict h senders group frame except minimum_version o in
        holds after.0 g c ≡ (holds h g c && not (Registry.has c (gone_ids after.2)))
  unfolding fanout_to
  fanout_to-holds h senders group frame except minimum_version none g c d e =
      unfold Registry.has gone_ids in ground arith
  fanout_to-holds h senders group frame except minimum_version (some ss) g c d e =
      let fanned = fan try_queue evict group frame except minimum_version senders ss in
      ground (
        arith,
        disconnect_all-holds
            (record h {
              groups = insert group fanned.subscribers h.groups;
              downgrades = h.downgrades + fanned.debts;
              shed_count = h.shed_count + shed_frames fanned.outcomes;
            })
            (gone_ids fanned.outcomes) g c (insert-Keyed group fanned.subscribers h.groups d),
        fanned-holds h group ss fanned.subscribers (h.downgrades + fanned.debts)
            (h.shed_count + shed_frames fanned.outcomes) g c e
            (fan-is_in group frame except minimum_version senders ss c),
      )

  pub fanout_frame-holds :
      (h : Hub) (senders : ℕ → Sender) (group : List ℕ) (frame : Frame) (except minimum_version : ℕ)
      (g : List ℕ) (c : ℕ)
      → Keyed h.groups
      → let after = fanout_frame try_queue evict h senders group frame except minimum_version in
        holds after.0 g c ≡ (holds h g c && not (Registry.has c (gone_ids after.2)))
  unfolding fanout_frame
  fanout_frame-holds h senders group frame except minimum_version g c d =
      fanout_to-holds h senders group frame except minimum_version (lookup group h.groups) g c d
        refl
