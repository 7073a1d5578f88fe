-- ===== src/Calls/Registry/Sound.antt =====
-- backend/wealdrelay/src/calls/mod.rs: what holds of the registry between two calls.
mod Participants
use wealdrelay.Base.{
  ℕ, ◌-◌, ◌≤◌, ◌≡◌, refl, sym, arith, true, false, ◌||◌, not, Option, none, some, List, [], ◌∷◌,
  ◌++◌, if◌then◌else◌, ltb, leb, ◌==◌, bytes_eq, length, length-append, lookup, retain, map_values,
  Keyed, Every, lookup-Every, insert-Every, remove-Every, retain-Every, length-insert,
  length-retain, length-remove, length-map_values, insert-Keyed, remove-Keyed, map_values-Keyed,
  retain-Keyed, Bool-cases, inl, inr,
}
use mathlib.Core.Path.{subst}
use wealdrelay.Calls.{call_idle_ms, max_participants_per_call}
use wealdrelay.Calls.Registry.{
  Call, CallRegistry, Queued, has, without, is_empty, drop_idle, sweep_idle, join_open, share, held,
  join_new, enter, join, leave_call, leave, forget, deliver, route_call, route, new,
}
use wealdrelay.Calls.Registry.Members.{
  Op, step, joining, leaving, forgetting, routing, sweeping, has-append, has-without, has-deliver,
  is_closed,
}
use wealdrelay.Calls.Registry.Sound.Participants.{
  Distinct, IsCall, append-Distinct, inhabited_has, length-deliver, deliver-Distinct,
  without-IsCall,
}

-- One call for an id, no more calls than the registry opens, and each of them sound.
pub record IsSound (r : CallRegistry) : Type 0 where
  pub keyed : Keyed r.calls
  pub bounded : length r.calls ≤ r.max_concurrent
  pub each : Every IsCall r.calls

sweep-IsSound : (r : CallRegistry) (idle now : ℕ) → IsSound r → IsSound (sweep_idle r idle now).0
unfolding sweep_idle drop_idle
sweep-IsSound r idle now h = record {
  keyed = retain-Keyed _ r.calls h.keyed;
  bounded = omega (
    arith,
    length-retain (λ (call : Call). ltb (now - call.last_activity) idle) r.calls,
    h.bounded,
  );
  each = retain-Every IsCall _ r.calls h.each;
}

join_open-IsSound :
    (r : CallRegistry) (id : List ℕ) (call : Call) (group : List ℕ) (c now : ℕ)
    → lookup id r.calls ≡ some call
    → IsSound r
    → IsSound (join_open r id call group c now).0
unfolding join_open
join_open-IsSound r id call group c now e h =
    let was = lookup-Every IsCall id r.calls h.each e in
    let joined : Call = record call {
      participants = call.participants ++ (c ∷ []);
      last_activity = now;
    } in
    elim (Bool-cases (not (bytes_eq call.group group))) [
      | inl a ↦ rw a h
      | inr a ↦ elim (Bool-cases (has c call.participants)) [
        | inl b ↦ rw (a, b) h
        | inr b ↦ elim (Bool-cases (leb max_participants_per_call (length call.participants))) [
          | inl d ↦ rw (a, b, d) h
          | inr d ↦
              rw (a, b, d)
                (record {
                  keyed = insert-Keyed id joined r.calls h.keyed;
                  bounded = ground (arith, length-insert id joined r.calls, h.bounded);
                  each =
                      insert-Every IsCall id joined r.calls
                        (record {
                          inhabited = omega (arith, length-append call.participants (c ∷ []));
                          few = ground (arith, length-append call.participants (c ∷ []));
                          distinct = append-Distinct c call.participants b was.distinct;
                        })
                        h.each;
                })
        ]
      ]
    ]

join_new-IsSound :
    (r : CallRegistry) (id group : List ℕ) (c now : ℕ)
    → lookup id r.calls ≡ none
    → IsSound r
    → IsSound (join_new r id group c now).0
unfolding join_new
join_new-IsSound r id group c now e h =
    let opened : Call = record { group = group; participants = c ∷ []; last_activity = now } in
    elim (Bool-cases (leb r.max_concurrent (length r.calls))) [
      | inl a ↦ rw a h
      | inr a ↦ elim (Bool-cases (leb (share r) (held c r.calls))) [
        | inl b ↦ rw (a, b) (record { keyed = h.keyed; bounded = h.bounded; each = h.each })
        | inr b ↦
            rw (a, b)
              (record {
                keyed = insert-Keyed id opened r.calls h.keyed;
                bounded = ground (arith, length-insert id opened r.calls, h.bounded);
                each =
                    insert-Every IsCall id opened r.calls
                      (record {
                        inhabited = omega arith;
                        few = omega arith;
                        distinct = (unfold has in refl, tt);
                      })
                      h.each;
              })
      ]
    ]

enter-IsSound :
    (r : CallRegistry) (id group : List ℕ) (c now : ℕ) (o : Option Call)
    → lookup id r.calls ≡ o
    → IsSound r
    → IsSound (enter r id group c now o).0
unfolding enter
enter-IsSound r id group c now none e h = join_new-IsSound r id group c now e h
enter-IsSound r id group c now (some call) e h = join_open-IsSound r id call group c now e h

leave_call-IsSound :
    (r : CallRegistry) (id : List ℕ) (c : ℕ) (o : Option Call)
    → lookup id r.calls ≡ o
    → IsSound r
    → IsSound (leave_call r id c o)
unfolding leave_call
leave_call-IsSound r id c none e h = h
leave_call-IsSound r id c (some call) e h =
    let left = without c call.participants in
    let was = lookup-Every IsCall id r.calls h.each e in
    elim (Bool-cases (is_empty left)) [
      | inl b ↦ rw b (record {
        keyed = remove-Keyed id r.calls h.keyed;
        bounded = omega (arith, length-remove id r.calls, h.bounded);
        each = remove-Every IsCall id r.calls h.each;
      })
      | inr b ↦
          let after : Call = record call { participants = left } in
          rw b (record {
            keyed = insert-Keyed id after r.calls h.keyed;
            bounded = ground (arith, length-insert id after r.calls, h.bounded);
            each = insert-Every IsCall id after r.calls (without-IsCall c call was b) h.each;
          })
    ]

forget-each :
    (c : ℕ) (m : List (List ℕ × Call))
    → Every IsCall m
    → Every IsCall (
        retain
          (λ call. not (is_empty call.participants))
          (map_values (λ call. record call { participants = without c call.participants }) m))
unfolding retain map_values
forget-each c [] h = tt
forget-each c ((id, call) ∷ m) h = elim (Bool-cases (is_empty (without c call.participants))) [
  | inl b ↦ rw b (forget-each c m h.1)
  | inr b ↦ rw b (without-IsCall c call h.0 b, forget-each c m h.1)
]

forget-IsSound : (r : CallRegistry) (c : ℕ) → IsSound r → IsSound (forget r c)
unfolding forget
forget-IsSound r c h =
    let parted =
      map_values (λ (call : Call). record call { participants = without c call.participants })
        r.calls in
    record {
      keyed = retain-Keyed _ parted (map_values-Keyed _ r.calls h.keyed);
      bounded = omega (
        arith,
        length-retain (λ (call : Call). not (is_empty call.participants)) parted,
        length-map_values
            (λ (call : Call). record call { participants = without c call.participants }) r.calls,
        h.bounded,
      );
      each = forget-each c r.calls h.each;
    }

route_call-IsSound :
    (r : CallRegistry) (id : List ℕ) (from : ℕ) (q : ℕ → Queued) (now : ℕ) (o : Option Call)
    → lookup id r.calls ≡ o
    → IsSound r
    → IsSound (route_call r id from q now o).0
unfolding route_call
route_call-IsSound r id from q now none e h = record {
  keyed = h.keyed;
  bounded = h.bounded;
  each = h.each;
}
route_call-IsSound r id from q now (some call) e h =
    elim (Bool-cases (has from call.participants)) [
      | inr b ↦ rw b (record { keyed = h.keyed; bounded = h.bounded; each = h.each })
      | inl b ↦
          let was = lookup-Every IsCall id r.calls h.each e in
          let staying = (deliver q from call.participants).1 in
          let after : Call = record call { participants = staying; last_activity = now } in
          rw b (record {
            keyed = insert-Keyed id after r.calls h.keyed;
            bounded = ground (arith, length-insert id after r.calls, h.bounded);
            each =
                insert-Every IsCall id after r.calls
                  (record {
                    inhabited =
                        inhabited_has from staying
                          (ground (arith, has-deliver q from from call.participants));
                    few = omega (arith, length-deliver q from call.participants, was.few);
                    distinct = deliver-Distinct q from call.participants was.distinct;
                  })
                  h.each;
          })
    ]

step-IsSound : (r : CallRegistry) (op : Op) → IsSound r → IsSound (step r op)
unfolding step join leave route
step-IsSound r (joining id group c now) h =
    let swept = (sweep_idle r call_idle_ms now).0 in
    enter-IsSound swept id group c now (lookup id swept.calls) refl
      (sweep-IsSound r call_idle_ms now h)
step-IsSound r (leaving id c) h = leave_call-IsSound r id c (lookup id r.calls) refl h
step-IsSound r (forgetting c) h = forget-IsSound r c h
step-IsSound r (routing id from q now) h =
    route_call-IsSound r id from q now (lookup id r.calls) refl h
step-IsSound r (sweeping idle now) h = sweep-IsSound r idle now h

unfoldable pub run : CallRegistry → List Op → CallRegistry
unfolding step
run r [] = r
run r (op ∷ ops) = run (step r op) ops

run-IsSound : (ops : List Op) (r : CallRegistry) → IsSound r → IsSound (run r ops)
unfolding run
run-IsSound [] r h = h
run-IsSound (op ∷ ops) r h = run-IsSound ops (step r op) (step-IsSound r op h)

-- Whatever joins, departures, disconnections, routed frames and sweeps run on a new registry: each
-- call has one entry, there are no more calls than the registry opens at a time, and each has one
-- to five participants, each once.
pub reached-IsSound : (max_concurrent : ℕ) (ops : List Op) → IsSound (run (new max_concurrent) ops)
unfolding new
reached-IsSound max_concurrent ops =
    run-IsSound ops (new max_concurrent) (record { keyed = tt; bounded = omega arith; each = tt })
