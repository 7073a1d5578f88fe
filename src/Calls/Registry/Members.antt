-- ===== src/Calls/Registry/Members.antt =====
-- backend/wealdrelay/src/calls/mod.rs: the registry as a relation between calls and connections.
use wealdrelay.Base.{
  ℕ, ◌-◌, ◌≡◌, refl, ap, arith, Bool, true, false, ◌&&◌, ◌||◌, not, Option, none, some, List, [],
  ◌∷◌, ◌++◌, ltb, ◌==◌, Result, ok, err, bytes_eq, bytes_eq_sound, bytes_eq_refl, lookup,
  map_values, Keyed, lookup-insert, lookup-retain, lookup-remove, lookup-map_values,
  map_values-Keyed, Option-cases, Bool-cases, inl, inr,
}
use wealdrelay.Calls.{call_idle_ms}
use wealdrelay.Calls.Registry.{
  Call, CallRegistry, Queued, closed, has, without, is_empty, drop_idle, sweep_idle, join_open,
  join_new, enter, join, leave_call, leave, forget, holds, deliver, route_call, route,
}

abbrev pub is_ok : {E A : Type 0} → Result E A → Bool
is_ok (ok _) = true
is_ok (err _) = false

abbrev pub is_closed : Queued → Bool
is_closed closed = true
is_closed _ = false

pub has-append : (c d : ℕ) (xs : List ℕ) → has c (xs ++ (d ∷ [])) ≡ (has c xs || (d == c))
unfolding has
has-append c d [] = ground arith
has-append c d (x ∷ xs) = ground (arith, has-append c d xs)

pub has-without : (c d : ℕ) (xs : List ℕ) → has c (without d xs) ≡ (has c xs && not (d == c))
unfolding has without
has-without c d [] = ground arith
has-without c d (x ∷ xs) = ground (arith, has-without c d xs)

-- Who stays after a frame is delivered.
pub has-deliver :
    (try_queue : ℕ → Queued) (from c : ℕ) (xs : List ℕ)
    → has c (deliver try_queue from xs).1
      ≡ (has c xs && ((c == from) || not (is_closed (try_queue c))))
unfolding has deliver
has-deliver try_queue from c [] = refl
has-deliver try_queue from c (x ∷ xs) = elim (Bool-cases (x == c)) [
  | inl e ↦
      let same : x ≡ c = ground arith in
      ground (arith, has-deliver try_queue from c xs, ap try_queue same)
  | inr e ↦ ground (arith, has-deliver try_queue from c xs)
]

-- Membership as it is read off one call.
abbrev member : ℕ → Option Call → Bool
member c none = false
member c (some call) = has c call.participants

holds-member :
    (r : CallRegistry) (id : List ℕ) (c : ℕ) → holds r id c ≡ member c (lookup id r.calls)
unfolding holds
holds-member r id c = ground arith

join_open-holds :
    (r : CallRegistry) (id : List ℕ) (call : Call) (group : List ℕ) (connection now : ℕ)
    (k : List ℕ) (c : ℕ)
    → lookup id r.calls ≡ some call
    → let (after, verdict) = join_open r id call group connection now in
      holds after k c ≡ (holds r k c || (is_ok verdict && (bytes_eq id k && (connection == c))))
unfolding join_open holds
join_open-holds r id call group connection now k c e = ground (
  arith,
  bytes_eq_sound id k,
  bytes_eq_refl id,
  has-append c connection call.participants,
  lookup-insert k id
      (record call { participants = call.participants ++ (connection ∷ []); last_activity = now })
      r.calls,
)

join_new-holds :
    (r : CallRegistry) (id group : List ℕ) (connection now : ℕ) (k : List ℕ) (c : ℕ)
    → lookup id r.calls ≡ none
    → let (after, verdict) = join_new r id group connection now in
      holds after k c ≡ (holds r k c || (is_ok verdict && (bytes_eq id k && (connection == c))))
unfolding join_new holds has
join_new-holds r id group connection now k c e = ground (
  arith,
  bytes_eq_sound id k,
  bytes_eq_refl id,
  lookup-insert k id (record { group = group; participants = connection ∷ []; last_activity = now })
      r.calls,
)

enter-holds :
    (r : CallRegistry) (id group : List ℕ) (connection now : ℕ) (k : List ℕ) (c : ℕ)
    (o : Option Call)
    → lookup id r.calls ≡ o
    → let (after, verdict) = enter r id group connection now o in
      holds after k c ≡ (holds r k c || (is_ok verdict && (bytes_eq id k && (connection == c))))
unfolding enter
enter-holds r id group connection now k c none e = join_new-holds r id group connection now k c e
enter-holds r id group connection now k c (some call) e =
    join_open-holds r id call group connection now k c e

pub join-holds :
    (r : CallRegistry) (id group : List ℕ) (connection now : ℕ) (k : List ℕ) (c : ℕ)
    → let (after, verdict) = join r id group connection now in
      holds after k c ≡ (
        holds (sweep_idle r call_idle_ms now).0 k c
        || (is_ok verdict && (bytes_eq id k && (connection == c))))
unfolding join
join-holds r id group connection now k c =
    let swept = (sweep_idle r call_idle_ms now).0 in
    enter-holds swept id group connection now k c (lookup id swept.calls) refl

-- A sweep keeps a call with everyone in it, or drops it whole.
pub sweep_idle-holds :
    (r : CallRegistry) (idle now : ℕ) (k : List ℕ) (c : ℕ)
    → Keyed r.calls
    → holds (sweep_idle r idle now).0 k c ≡ elim (lookup k r.calls) [
      | none ↦ false
      | some call ↦ ltb (now - call.last_activity) idle && holds r k c
    ]
unfolding sweep_idle drop_idle holds
sweep_idle-holds r idle now k c d =
    ground (arith, lookup-retain (λ call. ltb (now - call.last_activity) idle) k r.calls d)

empty_has : (c : ℕ) (xs : List ℕ) → is_empty xs ≡ true → has c xs ≡ false
unfolding has
empty_has c [] h = refl
empty_has c (x ∷ xs) h = cc

pub leave-holds :
    (r : CallRegistry) (id : List ℕ) (connection : ℕ) (k : List ℕ) (c : ℕ)
    → Keyed r.calls
    → holds (leave r id connection) k c ≡ (holds r k c && not (bytes_eq id k && (connection == c)))
unfolding leave leave_call holds
leave-holds r id connection k c d = elim (Option-cases (lookup id r.calls)) [
  | inl e ↦ ground (arith, bytes_eq_sound id k)
  | inr (call, e) ↦ ground (
    arith,
    bytes_eq_sound id k,
    bytes_eq_refl id,
    has-without c connection call.participants,
    empty_has c (without connection call.participants),
    lookup-remove k id r.calls d,
    lookup-insert k id (record call { participants = without connection call.participants })
        r.calls,
  )
]

pub forget-holds :
    (r : CallRegistry) (connection : ℕ) (k : List ℕ) (c : ℕ)
    → Keyed r.calls
    → holds (forget r connection) k c ≡ (holds r k c && not (connection == c))
unfolding forget holds
forget-holds r connection k c d =
    let parted =
      map_values (λ call. record call { participants = without connection call.participants })
        r.calls in
    let kept =
      lookup-retain (λ call. not (is_empty call.participants)) k parted
        (map_values-Keyed _ r.calls d) in
    let seen =
      lookup-map_values
        (λ call. record call { participants = without connection call.participants }) k r.calls in
    elim (Option-cases (lookup k r.calls)) [
      | inl e ↦ ground (arith, kept, seen)
      | inr (call, e) ↦ ground (
        arith,
        kept,
        seen,
        has-without c connection call.participants,
        empty_has c (without connection call.participants),
      )
    ]

pub route-holds :
    (r : CallRegistry) (id : List ℕ) (from : ℕ) (try_queue : ℕ → Queued) (now : ℕ) (k : List ℕ)
    (c : ℕ)
    → holds (route r id from try_queue now).0 k c ≡ (
        holds r k c
        && not (holds r id from && bytes_eq id k && not (c == from) && is_closed (try_queue c)))
unfolding route route_call holds
route-holds r id from try_queue now k c = elim (Option-cases (lookup id r.calls)) [
  | inl e ↦ ground (arith, bytes_eq_sound id k)
  | inr (call, e) ↦ ground (
    arith,
    bytes_eq_sound id k,
    bytes_eq_refl id,
    has-deliver try_queue from c call.participants,
    lookup-insert k id
        (record call {
          participants = (deliver try_queue from call.participants).1;
          last_activity = now;
        })
        r.calls,
  )
]

-- The calls on a registry.
pub data Op : Type 0 where
  joining : List ℕ → List ℕ → ℕ → ℕ → Op
  leaving : List ℕ → ℕ → Op
  forgetting : ℕ → Op
  routing : List ℕ → ℕ → (ℕ → Queued) → ℕ → Op
  sweeping : ℕ → ℕ → Op

unfoldable pub step : CallRegistry → Op → CallRegistry
unfolding join leave forget route sweep_idle
step r (joining id group connection now) = (join r id group connection now).0
step r (leaving id connection) = leave r id connection
step r (forgetting connection) = forget r connection
step r (routing id from try_queue now) = (route r id from try_queue now).0
step r (sweeping idle now) = (sweep_idle r idle now).0

-- Whether a call has been quiet for `idle`.
abbrev is_quiet : CallRegistry → List ℕ → ℕ → ℕ → Bool
is_quiet r k idle now = elim (lookup k r.calls) [
  | none ↦ false
  | some call ↦ not (ltb (now - call.last_activity) idle)
]

-- What each call does to the relation between calls and connections.
pub call_members : CallRegistry → Op → List ℕ → ℕ → Bool
call_members r (joining id group connection now) k c =
    (holds r k c && not (is_quiet r k call_idle_ms now))
    || (is_ok (join r id group connection now).1 && (bytes_eq id k && (connection == c)))
call_members r (leaving id connection) k c = holds r k c && not (bytes_eq id k && (connection == c))
call_members r (forgetting connection) k c = holds r k c && not (connection == c)
call_members r (routing id from try_queue now) k c =
    holds r k c
    && not (holds r id from && bytes_eq id k && not (c == from) && is_closed (try_queue c))
call_members r (sweeping idle now) k c = holds r k c && not (is_quiet r k idle now)

swept_members :
    (r : CallRegistry) (idle now : ℕ) (k : List ℕ) (c : ℕ)
    → Keyed r.calls
    → holds (sweep_idle r idle now).0 k c ≡ (holds r k c && not (is_quiet r k idle now))
unfolding holds
swept_members r idle now k c d = elim (Option-cases (lookup k r.calls)) [
  | inl e ↦ ground (arith, sweep_idle-holds r idle now k c d)
  | inr (call, e) ↦ ground (arith, sweep_idle-holds r idle now k c d)
]

-- On a registry with each call once, every call changes the relation between calls and connections
-- exactly as specified: joining drops the calls that have been quiet and adds one pair when it is
-- let in, leaving takes one pair out, a disconnection takes one connection out of every call,
-- routing by a participant takes out the others whose queue is closed, and a sweep drops the calls
-- that have been quiet.
pub step-call_members :
    (r : CallRegistry) (op : Op) (k : List ℕ) (c : ℕ)
    → Keyed r.calls
    → holds (step r op) k c ≡ call_members r op k c
unfolding step call_members
step-call_members r (joining id group connection now) k c d =
    ground (arith, join-holds r id group connection now k c, swept_members r call_idle_ms now k c d)
step-call_members r (leaving id connection) k c d = leave-holds r id connection k c d
step-call_members r (forgetting connection) k c d = forget-holds r connection k c d
step-call_members r (routing id from try_queue now) k c d = route-holds r id from try_queue now k c
step-call_members r (sweeping idle now) k c d = swept_members r idle now k c d
