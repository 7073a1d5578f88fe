-- ===== src/Calls/Registry.antt =====
-- backend/wealdrelay/src/calls/mod.rs: the registry of open calls. A participant is its connection; the
-- sender that stands beside it is asked by the argument `try_queue` of `route`, which answers for the
-- frame of that call what became of it on each connection.
pub mod Members
pub mod Sound
use wealdrelay.Base.{
  ℕ, suc, ◌+◌, ◌-◌, ◌/◌, Bool, true, false, ◌&&◌, ◌||◌, not, Option, none, some, List, [], ◌∷◌,
  ◌++◌, ltb, leb, ◌==◌, if◌then◌else◌, length, max, Result, ok, err, bytes_eq, lookup, insert,
  retain, remove, map_values,
}
use wealdrelay.Frame.Code.{ErrorCode, writer_not_in_access_set, rate_limited}
use wealdrelay.Calls.{max_participants_per_call, call_idle_ms}

pub record Call : Type 0 where
  pub group : List ℕ
  pub participants : List ℕ
  pub last_activity : ℕ

pub data JoinRefusal : Type 0 where
  group_mismatch too_many_calls call_full : JoinRefusal

unfoldable pub code : JoinRefusal → ErrorCode
code group_mismatch = writer_not_in_access_set
code too_many_calls = rate_limited
code call_full = rate_limited

unfoldable pub retry_after : JoinRefusal → Option ℕ
retry_after group_mismatch = none
retry_after too_many_calls = some 5
retry_after call_full = some 5

unfoldable pub detail : JoinRefusal → ℕ → ℕ
detail group_mismatch max_calls = 0
detail too_many_calls max_calls = max_calls
detail call_full max_calls = max_participants_per_call

-- The calls, and the counters that the methods raise.
pub record CallRegistry : Type 0 where
  pub calls : List (List ℕ × Call)
  pub max_concurrent : ℕ
  pub shed : ℕ
  pub denied : ℕ
  pub share_refused : ℕ

unfoldable pub new : ℕ → CallRegistry
new max_concurrent = record {
  calls = [];
  max_concurrent = max_concurrent;
  shed = 0;
  denied = 0;
  share_refused = 0;
}

unfoldable pub share : CallRegistry → ℕ
share r = max (r.max_concurrent / 4) 1

-- `participants.iter().any(|(existing, _)| *existing == connection)`
unfoldable pub has : ℕ → List ℕ → Bool
has c [] = false
has c (x ∷ xs) = (x == c) || has c xs

-- `participants.retain(|(existing, _)| *existing != connection)`
unfoldable pub without : ℕ → List ℕ → List ℕ
without c [] = []
without c (x ∷ xs) = if x == c then without c xs else x ∷ without c xs

unfoldable pub drop_idle : ℕ → ℕ → List (List ℕ × Call) → List (List ℕ × Call)
unfolding retain
drop_idle idle now = retain (λ call. ltb (now - call.last_activity) idle)

unfoldable pub sweep_idle : CallRegistry → ℕ → ℕ → CallRegistry × ℕ
unfolding drop_idle
sweep_idle r idle now =
    let calls = drop_idle idle now r.calls in
    (record r { calls = calls }, length r.calls - length calls)

-- The calls that a connection is in.
unfoldable pub held : ℕ → List (List ℕ × Call) → ℕ
unfolding has
held c [] = 0
held c ((id, call) ∷ rest) = if has c call.participants then suc (held c rest) else held c rest

-- Joining a call that is open.
unfoldable pub join_open :
    CallRegistry → List ℕ → Call → List ℕ → ℕ → ℕ → CallRegistry × Result JoinRefusal (Unit {0})
unfolding has insert
join_open r call_id call group connection now =
    if not (bytes_eq call.group group)
    then (r, err group_mismatch)
    else if has connection call.participants
    then (r, ok tt)
    else if leb max_participants_per_call (length call.participants)
    then (r, err call_full)
    else let joined = record call {
      participants = call.participants ++ (connection ∷ []);
      last_activity = now;
    } in
      (record r { calls = insert call_id joined r.calls }, ok tt)

-- Opening a call.
unfoldable pub join_new :
    CallRegistry → List ℕ → List ℕ → ℕ → ℕ → CallRegistry × Result JoinRefusal (Unit {0})
unfolding held share insert
join_new r call_id group connection now =
    if leb r.max_concurrent (length r.calls)
    then (r, err too_many_calls)
    else if leb (share r) (held connection r.calls)
    then (record r { share_refused = r.share_refused + 1 }, err too_many_calls)
    else let opened : Call = record {
      group = group;
      participants = connection ∷ [];
      last_activity = now;
    } in
      (record r { calls = insert call_id opened r.calls }, ok tt)

-- The `match` on the call, in a registry that has been swept.
unfoldable pub enter :
    CallRegistry
    → List ℕ
    → List ℕ
    → ℕ
    → ℕ
    → Option Call
    → CallRegistry × Result JoinRefusal (Unit {0})
unfolding join_open join_new
enter r call_id group connection now (some call) = join_open r call_id call group connection now
enter r call_id group connection now none = join_new r call_id group connection now

unfoldable pub join :
    CallRegistry → List ℕ → List ℕ → ℕ → ℕ → CallRegistry × Result JoinRefusal (Unit {0})
unfolding sweep_idle lookup enter
join r call_id group connection now =
    let swept = (sweep_idle r call_idle_ms now).0 in
    enter swept call_id group connection now (lookup call_id swept.calls)

abbrev pub is_empty : List ℕ → Bool
is_empty [] = true
is_empty (x ∷ xs) = false

-- What `leave` does with the call that it finds.
unfoldable pub leave_call : CallRegistry → List ℕ → ℕ → Option Call → CallRegistry
unfolding without insert remove
leave_call r call_id connection none = r
leave_call r call_id connection (some call) =
    let left = without connection call.participants in
    if is_empty left
    then record r { calls = remove call_id r.calls }
    else record r { calls = insert call_id (record call { participants = left }) r.calls }

unfoldable pub leave : CallRegistry → List ℕ → ℕ → CallRegistry
unfolding lookup leave_call
leave r call_id connection = leave_call r call_id connection (lookup call_id r.calls)

unfoldable pub forget : CallRegistry → ℕ → CallRegistry
unfolding map_values retain without
forget r connection = record r {
  calls =
      retain (λ call. not (is_empty call.participants))
        (map_values (λ call. record call { participants = without connection call.participants })
          r.calls);
}

unfoldable pub group_of : CallRegistry → List ℕ → Option (List ℕ)
unfolding lookup
group_of r call_id = elim (lookup call_id r.calls) [ none ↦ none | some call ↦ some call.group ]

unfoldable pub holds : CallRegistry → List ℕ → ℕ → Bool
unfolding lookup has
holds r call_id connection = elim (lookup call_id r.calls) [
  | none ↦ false
  | some call ↦ has connection call.participants
]

pub data Queued : Type 0 where
  sent full closed : Queued

pub record Routed : Type 0 where
  pub sent : ℕ
  pub shed : ℕ
  pub gone : ℕ

abbrev count : Queued → Routed → Routed
count sent routed = record routed { sent = routed.sent + 1 }
count full routed = record routed { shed = routed.shed + 1 }
count closed routed = record routed { gone = routed.gone + 1 }

-- The loop over the participants: what became of the frame, and who stays.
unfoldable pub deliver : (ℕ → Queued) → ℕ → List ℕ → Routed × List ℕ
deliver try_queue from [] = (record { sent = 0; shed = 0; gone = 0 }, [])
deliver try_queue from (x ∷ xs) =
    let (routed, staying) = deliver try_queue from xs in
    if x == from then (routed, x ∷ staying) else (
      count (try_queue x) routed,
      elim (try_queue x) [ closed ↦ staying | sent ↦ x ∷ staying | full ↦ x ∷ staying ],
    )

abbrev deny : CallRegistry → CallRegistry × Result ErrorCode Routed
deny r = (record r { denied = r.denied + 1 }, err writer_not_in_access_set)

-- What `route` does with the call that it finds.
unfoldable pub route_call :
    CallRegistry
    → List ℕ
    → ℕ
    → (ℕ → Queued)
    → ℕ
    → Option Call
    → CallRegistry × Result ErrorCode Routed
unfolding has deliver insert
route_call r call_id from try_queue now none = deny r
route_call r call_id from try_queue now (some call) =
    if not (has from call.participants)
    then deny r
    else let (routed, staying) = deliver try_queue from call.participants in
      let after = record call { participants = staying; last_activity = now } in
      (record r { calls = insert call_id after r.calls; shed = r.shed + routed.shed }, ok routed)

unfoldable pub route :
    CallRegistry → List ℕ → ℕ → (ℕ → Queued) → ℕ → CallRegistry × Result ErrorCode Routed
unfolding lookup route_call
route r call_id from try_queue now =
    route_call r call_id from try_queue now (lookup call_id r.calls)
