-- ===== src/Push/Queue/Invariant.antt =====
-- backend/wealdrelay/src/push/queue.rs: what every queue is, whatever wakes arrive.
use wealdrelay.Base.{
  ℕ, zero, suc, ◌+◌, ◌-◌, ◌≤◌, ◌≡◌, refl, arith, Bool, false, not, none, some, List, [], ◌∷◌, ◌++◌,
  length, length-append, bytes_eq, bytes_eq_sym, Option-cases, Bool-cases, leb, inl, inr,
}
use wealdrelay.Push.Category.{Category, is_urgent}
use wealdrelay.Push.Queue.{
  Entry, Queue, new, find, overwrite, position, remove, pop_front, admit_pending, admit_full,
  admit_new, admit, kept_of, take_due,
}

-- No device has two wakes waiting.
abbrev pub Distinct : List Entry → Type 0
Distinct [] = Unit {0}
Distinct (e ∷ es) = (find e.handle es ≡ none) × Distinct es

pub record IsWellFormed (q : Queue) : Type 0 where
  pub room : 1 ≤ q.bound
  pub within : length q.entries ≤ q.bound
  pub distinct : Distinct q.entries

find_last :
    (h : List ℕ) (xs : List Entry) (e : Entry)
    → find h xs ≡ none
    → bytes_eq e.handle h ≡ false
    → find h (xs ++ (e ∷ [])) ≡ none
unfolding find
find_last h [] e p k = ground arith
find_last h (x ∷ xs) e p k = ground (arith, find_last h xs e)

Distinct-last :
    (xs : List Entry) (e : Entry)
    → Distinct xs
    → find e.handle xs ≡ none
    → Distinct (xs ++ (e ∷ []))
unfolding find
Distinct-last [] e d h = (refl, tt)
Distinct-last (x ∷ xs) e d h = (
  find_last x.handle xs e d.0 (ground (arith, bytes_eq_sym e.handle x.handle)),
  Distinct-last xs e d.1 (ground arith),
)

pub find-remove :
    (h : List ℕ) (i : ℕ) (xs : List Entry) → find h xs ≡ none → find h (remove i xs) ≡ none
unfolding find remove
find-remove h i [] p = refl
find-remove h zero (x ∷ xs) p = ground arith
find-remove h (suc i) (x ∷ xs) p = ground (arith, find-remove h i xs)

Distinct-remove : (i : ℕ) (xs : List Entry) → Distinct xs → Distinct (remove i xs)
unfolding remove
Distinct-remove i [] d = tt
Distinct-remove zero (x ∷ xs) d = d.1
Distinct-remove (suc i) (x ∷ xs) d = (find-remove x.handle i xs d.0, Distinct-remove i xs d.1)

find-overwrite :
    (h k : List ℕ) (f : Entry → Entry) (xs : List Entry)
    → ((e : Entry) → (f e).handle ≡ e.handle)
    → find h xs ≡ none
    → find h (overwrite k f xs) ≡ none
unfolding find overwrite
find-overwrite h k f [] same p = refl
find-overwrite h k f (x ∷ xs) same p = ground (arith, same x, find-overwrite h k f xs same)

Distinct-overwrite :
    (k : List ℕ) (f : Entry → Entry) (xs : List Entry)
    → ((e : Entry) → (f e).handle ≡ e.handle)
    → Distinct xs
    → Distinct (overwrite k f xs)
unfolding overwrite
Distinct-overwrite k f [] same d = tt
Distinct-overwrite k f (x ∷ xs) same d =
    ground
      (arith, same x, find-overwrite x.handle k f xs same d.0, Distinct-overwrite k f xs same d.1)

pub length-overwrite :
    (k : List ℕ) (f : Entry → Entry) (xs : List Entry) → length (overwrite k f xs) ≡ length xs
unfolding overwrite
length-overwrite k f [] = refl
length-overwrite k f (x ∷ xs) = ground (arith, length-overwrite k f xs)

pub position_lem :
    (test : Entry → Bool) (xs : List Entry) (i : ℕ)
    → position test xs ≡ some i
    → length (remove i xs) + 1 ≡ length xs
unfolding position remove
position_lem test [] i p = cc
position_lem test (x ∷ xs) zero p = omega arith
position_lem test (x ∷ xs) (suc i) p = ground (arith, position_lem test xs i)

pub find-pop_front :
    (h : List ℕ) (xs : List Entry) → find h xs ≡ none → find h (pop_front xs) ≡ none
unfolding find pop_front
find-pop_front h [] p = refl
find-pop_front h (x ∷ xs) p = ground arith

Distinct-pop_front : (xs : List Entry) → Distinct xs → Distinct (pop_front xs)
unfolding pop_front
Distinct-pop_front [] d = tt
Distinct-pop_front (x ∷ xs) d = d.1

length-pop_front : (xs : List Entry) → length (pop_front xs) ≡ length xs - 1
unfolding pop_front
length-pop_front [] = omega arith
length-pop_front (x ∷ xs) = omega arith

-- A list that grows by one wake for a new device.
grown :
    (bound : ℕ) (xs : List Entry) (e : Entry)
    → 1 ≤ bound
    → length xs + 1 ≤ bound
    → Distinct xs
    → find e.handle xs ≡ none
    → IsWellFormed (record { bound = bound; entries = xs ++ (e ∷ []) })
grown bound xs e room le d new = record {
  room = room;
  within = omega (arith, length-append xs (e ∷ []));
  distinct = Distinct-last xs e d new;
}

admit_full-IsWellFormed :
    (q : Queue) (e : Entry)
    → IsWellFormed q
    → find e.handle q.entries ≡ none
    → IsWellFormed (admit_full q e).0
unfolding admit_full
admit_full-IsWellFormed q e w new =
    elim (Option-cases (position (λ e. not (is_urgent e.category)) q.entries)) [
      | inl all ↦
          rw (all, admit_full)
            (elim (Bool-cases (is_urgent e.category)) [
              | inl ring ↦ rw ring (
                  grown q.bound (pop_front q.entries) e w.room
                    (omega (arith, w.within, w.room, length-pop_front q.entries))
                    (Distinct-pop_front q.entries w.distinct)
                    (find-pop_front e.handle q.entries new))
              | inr ordinary ↦ rw ordinary w
            ])
      | inr (i, there) ↦
          rw (there, admit_full)
            (grown q.bound (remove i q.entries) e w.room
              (omega (arith, w.within, position_lem _ q.entries i there))
              (Distinct-remove i q.entries w.distinct) (find-remove e.handle i q.entries new))
    ]

admit_pending-IsWellFormed :
    (q : Queue) (handle : List ℕ) (existing : Entry) (category : Category) (now : ℕ)
    → IsWellFormed q
    → IsWellFormed (admit_pending q handle existing category now).0
unfolding admit_pending
admit_pending-IsWellFormed q handle existing category now w =
    let ring : Entry → Entry =
      λ e. record { handle = e.handle; category = category; due_at = now } in
    ground (
      arith,
      length-overwrite handle ring q.entries,
      Distinct-overwrite handle ring q.entries (λ e. refl) w.distinct,
    )

admit_new-IsWellFormed :
    (q : Queue) (handle : List ℕ) (category : Category) (now coalesce : ℕ)
    → IsWellFormed q
    → find handle q.entries ≡ none
    → IsWellFormed (admit_new q handle category now coalesce).0
unfolding admit_new
admit_new-IsWellFormed q handle category now coalesce w new =
    elim (Bool-cases (leb q.bound (length q.entries))) [
      | inl full ↦ rw full (admit_full-IsWellFormed q _ w new)
      | inr room ↦ rw room (grown q.bound q.entries _ w.room (ground arith) w.distinct new)
    ]

-- A wake leaves a well-formed queue well formed: within its bound, and one entry for each device.
pub admit-IsWellFormed :
    (q : Queue) (handle : List ℕ) (category : Category) (now coalesce : ℕ)
    → IsWellFormed q
    → IsWellFormed (admit q handle category now coalesce).0
unfolding admit
admit-IsWellFormed q handle category now coalesce w = elim (Option-cases (find handle q.entries)) [
  | inl fresh ↦ rw (fresh, admit) (admit_new-IsWellFormed q handle category now coalesce w fresh)
  | inr (existing, there) ↦
      rw (there, admit) (admit_pending-IsWellFormed q handle existing category now w)
]

find-kept_of :
    (h : List ℕ) (now : ℕ) (xs : List Entry) → find h xs ≡ none → find h (kept_of now xs) ≡ none
unfolding find kept_of
find-kept_of h now [] p = refl
find-kept_of h now (x ∷ xs) p = ground (arith, find-kept_of h now xs)

Distinct-kept_of : (now : ℕ) (xs : List Entry) → Distinct xs → Distinct (kept_of now xs)
unfolding kept_of
Distinct-kept_of now [] d = tt
Distinct-kept_of now (x ∷ xs) d =
    ground (arith, find-kept_of x.handle now xs d.0, Distinct-kept_of now xs d.1)

length-kept_of : (now : ℕ) (xs : List Entry) → length (kept_of now xs) ≤ length xs
unfolding kept_of
length-kept_of now [] = omega arith
length-kept_of now (x ∷ xs) = ground (arith, length-kept_of now xs)

take_due-IsWellFormed : (q : Queue) (now : ℕ) → IsWellFormed q → IsWellFormed (take_due now q).1
unfolding take_due
take_due-IsWellFormed q now w = record {
  room = w.room;
  within = omega (arith, w.within, length-kept_of now q.entries);
  distinct = Distinct-kept_of now q.entries w.distinct;
}

-- What the relay does with its queue.
pub data Call : Type 0 where
  admits : List ℕ → Category → ℕ → ℕ → Call
  takes : ℕ → Call

pub run : Queue → List Call → Queue
run q [] = q
run q (admits handle category now coalesce ∷ cs) = run (admit q handle category now coalesce).0 cs
run q (takes now ∷ cs) = run (take_due now q).1 cs

run-IsWellFormed : (q : Queue) (cs : List Call) → IsWellFormed q → IsWellFormed (run q cs)
unfolding run
run-IsWellFormed q [] w = w
run-IsWellFormed q (admits handle category now coalesce ∷ cs) w =
    run-IsWellFormed (admit q handle category now coalesce).0 cs
      (admit-IsWellFormed q handle category now coalesce w)
run-IsWellFormed q (takes now ∷ cs) w =
    run-IsWellFormed (take_due now q).1 cs (take_due-IsWellFormed q now w)

-- After any sequence of admitted wakes and of takings, a queue made with any bound has room for
-- one wake at least, holds no more wakes than its bound, and no two of them for one device.
pub run-new-IsWellFormed : (bound : ℕ) (cs : List Call) → IsWellFormed (run (new bound) cs)
unfolding new
run-new-IsWellFormed bound cs =
    run-IsWellFormed _ cs (record { room = omega arith; within = omega arith; distinct = tt })
