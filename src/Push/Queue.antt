-- ===== src/Push/Queue.antt =====
-- backend/wealdrelay/src/push/queue.rs: the bounded wake queue and its four rules.
pub mod Invariant
pub mod Rings
pub mod Deadlines
use wealdrelay.Base.{
  ℕ, zero, suc, ◌+◌, ◌≤◌, Bool, true, false, not, Option, none, some, List, [], ◌∷◌, ◌++◌, ltb, leb,
  if◌then◌else◌, length, max, min, bytes_eq,
}
use wealdrelay.Push.Category.{Category, is_urgent, saturating_add}

pub data Admit : Type 0 where
  queued coalesced superseded redundant dropped : Admit

pub record Entry : Type 0 where
  pub handle : List ℕ
  pub category : Category
  pub due_at : ℕ

-- The front of the `VecDeque` is the head of the list.
pub record Queue : Type 0 where
  pub bound : ℕ
  pub entries : List Entry

unfoldable pub new : ℕ → Queue
new bound = record { bound = max bound 1; entries = [] }

-- `entries.iter_mut().find(|entry| entry.handle == handle)`
unfoldable pub find : List ℕ → List Entry → Option Entry
find handle [] = none
find handle (e ∷ es) = if bytes_eq e.handle handle then some e else find handle es

-- A write through the reference that `find` gives.
unfoldable pub overwrite : List ℕ → (Entry → Entry) → List Entry → List Entry
overwrite handle f [] = []
overwrite handle f (e ∷ es) =
    if bytes_eq e.handle handle then f e ∷ es else e ∷ overwrite handle f es

unfoldable pub position : (Entry → Bool) → List Entry → Option ℕ
position test [] = none
position test (e ∷ es) =
    let later = position test es in
    if test e then some 0 else elim later [ none ↦ none | some i ↦ some (suc i) ]

unfoldable pub remove : ℕ → List Entry → List Entry
remove i [] = []
remove zero (e ∷ es) = es
remove (suc i) (e ∷ es) = e ∷ remove i es

unfoldable pub pop_front : List Entry → List Entry
pop_front [] = []
pop_front (e ∷ es) = es

-- A wake for a device that has one waiting.
unfoldable pub admit_pending : Queue → List ℕ → Entry → Category → ℕ → Queue × Admit
unfolding is_urgent overwrite
admit_pending q handle existing category now =
    if is_urgent existing.category
    then (q, if is_urgent category then coalesced else redundant)
    else if is_urgent category
    then (
      record q {
        entries =
            overwrite handle (λ e. record { handle = e.handle; category = category; due_at = now })
              q.entries;
      },
      superseded,
    )
    else (q, coalesced)

-- A wake for a full queue.
unfoldable pub admit_full : Queue → Entry → Queue × Admit
unfolding is_urgent position remove pop_front
admit_full q entry = elim (position (λ e. not (is_urgent e.category)) q.entries) [
  | some index ↦ (record q { entries = remove index q.entries ++ (entry ∷ []) }, dropped)
  | none ↦
      if not (is_urgent entry.category)
      then (q, dropped)
      else (record q { entries = pop_front q.entries ++ (entry ∷ []) }, dropped)
]

-- A wake for a device that has none waiting.
unfoldable pub admit_new : Queue → List ℕ → Category → ℕ → ℕ → Queue × Admit
unfolding is_urgent admit_full
admit_new q handle category now coalesce =
    let due = if is_urgent category then now else saturating_add now coalesce in
    let entry : Entry = record { handle = handle; category = category; due_at = due } in
    if leb q.bound (length q.entries)
    then admit_full q entry
    else (record q { entries = q.entries ++ (entry ∷ []) }, queued)

unfoldable pub admit : Queue → List ℕ → Category → ℕ → ℕ → Queue × Admit
unfolding find admit_pending admit_new
admit q handle category now coalesce = elim (find handle q.entries) [
  | some existing ↦ admit_pending q handle existing category now
  | none ↦ admit_new q handle category now coalesce
]

-- The least deadline.
unfoldable pub earliest : List Entry → Option ℕ
earliest [] = none
earliest (e ∷ es) = elim (earliest es) [ none ↦ some e.due_at | some d ↦ some (min e.due_at d) ]

unfoldable pub next_deadline : Queue → Option ℕ
unfolding earliest
next_deadline q = earliest q.entries

-- What the loop of `take_due` pushes on `due` and what it keeps.
unfoldable pub due_of : ℕ → List Entry → List (List ℕ × Category)
due_of now [] = []
due_of now (e ∷ es) =
    if leb e.due_at now then (e.handle, e.category) ∷ due_of now es else due_of now es

unfoldable pub kept_of : ℕ → List Entry → List Entry
kept_of now [] = []
kept_of now (e ∷ es) = if leb e.due_at now then kept_of now es else e ∷ kept_of now es

unfoldable pub take_due : ℕ → Queue → List (List ℕ × Category) × Queue
unfolding due_of kept_of
take_due now q = (due_of now q.entries, record q { entries = kept_of now q.entries })
