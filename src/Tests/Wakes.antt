-- ===== src/Tests/Wakes.antt =====
-- A queue of two wakes for backend/wealdrelay/src/push/queue.rs: a ring and a message.
use wealdrelay.Base.{◌≤◌, ◌<◌, ◌≡◌, ◌≢◌, ◌↔◌, refl, [], ◌∷◌, ◌++◌, some, map, All}
use mathlib.Core.List.{Perm}
use wealdrelay.Push.Category.{message, call, is_urgent}
use wealdrelay.Push.Queue.{Entry, Queue, new, find, admit, next_deadline, take_due}
use wealdrelay.Push.Queue.Invariant.{IsWellFormed, admits, takes, run, run-new-IsWellFormed}
use wealdrelay.Push.Queue.Rings.{Rings, admit_keeps_rings, admit-Rings}
use wealdrelay.Push.Queue.Deadlines.{wake, take_due_splits, next_deadline_exact}

abbrev ring : Entry
ring = record { handle = 1 ∷ []; category = call; due_at = 100 }

abbrev note : Entry
note = record { handle = 2 ∷ []; category = message; due_at = 400 }

abbrev full : Queue
full = record { bound = 2; entries = ring ∷ note ∷ [] }

run-new-IsWellFormed_example : IsWellFormed (
    run (new 2) (
      admits (1 ∷ []) call 100 250
      ∷ admits (2 ∷ []) message 150 250
      ∷ admits (3 ∷ []) call 200 250
      ∷ takes 300
      ∷ []))
run-new-IsWellFormed_example = run-new-IsWellFormed 2 (
    admits (1 ∷ []) call 100 250
    ∷ admits (2 ∷ []) message 150 250
    ∷ admits (3 ∷ []) call 200 250
    ∷ takes 300
    ∷ [])

admit_keeps_rings_example :
    find (1 ∷ []) (admit full (3 ∷ []) message 200 250).0.entries ≡ some ring
admit_keeps_rings_example =
    admit_keeps_rings full (1 ∷ []) ring (3 ∷ []) message 200 250 (unfold find in refl)
      (unfold is_urgent in refl) (unfold is_urgent in refl)

admit-Rings_example : Rings 200 (2 ∷ []) full (admit full (2 ∷ []) call 200 250).0
admit-Rings_example = admit-Rings full (2 ∷ []) call 200 250 (unfold is_urgent in refl)

take_due_splits_example :
    Perm (map wake full.entries) ((take_due 200 full).0 ++ map wake (take_due 200 full).1.entries)
    × All (λ e. 200 < e.due_at) (take_due 200 full).1.entries
take_due_splits_example = take_due_splits 200 full

next_deadline_exact_example : ((take_due 200 full).0 ≢ []) ↔ (100 ≤ 200)
next_deadline_exact_example = next_deadline_exact 200 full 100 (unfold next_deadline in refl)
