-- ===== src/Push/Queue/Deadlines.antt =====
-- backend/wealdrelay/src/push/queue.rs: which wakes leave, and when.
use native.Mathlib.Decide.{dec_lt}
use wealdrelay.Base.{
  ℕ, ◌≤◌, ◌<◌, ◌≡◌, ◌≢◌, refl, arith, none, some, List, [], ◌∷◌, ◌++◌, All, leb, Option-cases,
  Bool-cases, inl, inr, ◌↔◌, map,
}
use mathlib.Core.List.{Perm, perm_middle}
use mathlib.Core.List.Perm
use wealdrelay.Push.Category.{Category}
use wealdrelay.Push.Queue.{Entry, Queue, earliest, next_deadline, due_of, kept_of, take_due}

abbrev pub wake : Entry → List ℕ × Category
wake e = (e.handle, e.category)

-- Nothing is lost and nothing is made up.
wakes-perm :
    (now : ℕ) (es : List Entry) → Perm (map wake es) (due_of now es ++ map wake (kept_of now es))
unfolding due_of kept_of
wakes-perm now [] = Perm.nil
wakes-perm now (e ∷ es) =
    let rest = Perm.cons (wake e) (wakes-perm now es) in
    elim (Bool-cases (leb e.due_at now)) [
      | inl due ↦ rw due rest
      | inr later ↦
          rw later
            (Perm.trans rest (Perm.symm (perm_middle (due_of now es) (map wake (kept_of now es)))))
    ]

kept_later : (now : ℕ) (es : List Entry) → All (λ e. now < e.due_at) (kept_of now es)
unfolding kept_of
kept_later now [] = tt
kept_later now (e ∷ es) = ground (arith, kept_later now es)

-- `take_due` splits the waiting wakes into those it answers and those that stay, up to order
-- losing none and making up none, and those that stay are due later than now.
pub take_due_splits :
    (now : ℕ) (q : Queue)
    → Perm (map wake q.entries) ((take_due now q).0 ++ map wake (take_due now q).1.entries)
      × All (λ e. now < e.due_at) (take_due now q).1.entries
unfolding take_due
take_due_splits now q = (wakes-perm now q.entries, kept_later now q.entries)

earliest-none : (now : ℕ) (es : List Entry) → earliest es ≡ none → due_of now es ≡ []
unfolding earliest due_of
earliest-none now [] p = refl
earliest-none now (e ∷ es) p = ground arith

nothing_early :
    (now : ℕ) (es : List Entry) (d : ℕ) → earliest es ≡ some d → now < d → due_of now es ≡ []
unfolding earliest due_of
nothing_early now [] d p h = refl
nothing_early now (e ∷ es) d p h = elim (Option-cases (earliest es)) [
  | inl last ↦ ground (arith, earliest-none now es last)
  | inr (d', rest) ↦ ground (arith, nothing_early now es d' rest)
]

something_due :
    (now : ℕ) (es : List Entry) (d : ℕ) → earliest es ≡ some d → d ≤ now → due_of now es ≢ []
unfolding earliest due_of
something_due now [] d p h = cc
something_due now (e ∷ es) d p h = elim (Option-cases (earliest es)) [
  | inl last ↦ ground arith
  | inr (d', rest) ↦ ground (arith, something_due now es d' rest)
]

-- If `next_deadline` answers `d`, then `take_due` at a time takes something exactly when `d` has
-- come by then.
pub next_deadline_exact :
    (now : ℕ) (q : Queue) (d : ℕ) → next_deadline q ≡ some d → ((take_due now q).0 ≢ []) ↔ (d ≤ now)
unfolding next_deadline take_due
next_deadline_exact now q d p = (
  λ some_due. elim (dec_lt now d) [
    | yes early ↦ absurd (some_due (nothing_early now q.entries d p early))
    | no late ↦ omega arith
  ],
  something_due now q.entries d p,
)
