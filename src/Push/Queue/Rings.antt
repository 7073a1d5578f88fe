-- ===== src/Push/Queue/Rings.antt =====
-- backend/wealdrelay/src/push/queue.rs: the urgent wakes that wait.
use mathlib.Core.Path.{subst}
use wealdrelay.Base.{
  ℕ, zero, suc, ◌≡◌, refl, sym, ap, ◌∙◌, arith, true, false, not, none, some, List, [], ◌∷◌, ◌++◌,
  length, bytes_eq, bytes_eq_refl, Option-cases, Bool-cases, inl, inr, ◌⊎◌, leb,
}
use wealdrelay.Push.Category.{Category, is_urgent}
use wealdrelay.Push.Queue.Invariant.{find-remove, find-pop_front}
use wealdrelay.Push.Queue.{
  Entry, Queue, find, overwrite, position, remove, pop_front, admit_pending, admit_full, admit_new,
  admit,
}

find-append :
    (h : List ℕ) (xs ys : List Entry) (r : Entry) → find h xs ≡ some r → find h (xs ++ ys) ≡ some r
unfolding find
find-append h [] ys r p = cc
find-append h (x ∷ xs) ys r p = ground (arith, find-append h xs ys r)

find-append_none :
    (h : List ℕ) (xs : List Entry) (e : Entry)
    → find h xs ≡ none
    → bytes_eq e.handle h ≡ true
    → find h (xs ++ (e ∷ [])) ≡ some e
unfolding find
find-append_none h [] e p k = ground arith
find-append_none h (x ∷ xs) e p k = ground (arith, find-append_none h xs e)

-- What goes to make room is an ordinary wake, so a ring is found as before.
find-remove_ordinary :
    (h : List ℕ) (xs : List Entry) (i : ℕ) (r : Entry)
    → position (λ e. not (is_urgent e.category)) xs ≡ some i
    → find h xs ≡ some r
    → is_urgent r.category ≡ true
    → find h (remove i xs) ≡ some r
unfolding find position remove
find-remove_ordinary h [] i r p k u = cc
find-remove_ordinary h (x ∷ xs) zero r p k u = ground arith
find-remove_ordinary h (x ∷ xs) (suc i) r p k u = ground (arith, find-remove_ordinary h xs i r)

-- An ordinary wake on a full queue.
full_keeps :
    (q : Queue) (h : List ℕ) (r : Entry) (e : Entry)
    → find h q.entries ≡ some r
    → is_urgent r.category ≡ true
    → is_urgent e.category ≡ false
    → find h (admit_full q e).0.entries ≡ some r
unfolding admit_full
full_keeps q h r e p u o =
    elim (Option-cases (position (λ x. not (is_urgent x.category)) q.entries)) [
      | inl all ↦ rw (all, admit_full) (rw o p)
      | inr (i, there) ↦
          rw (there, admit_full)
            (find-append h (remove i q.entries) (e ∷ []) r
              (find-remove_ordinary h q.entries i r there p u))
    ]

new_keeps :
    (q : Queue) (h : List ℕ) (r : Entry) (handle : List ℕ) (category : Category) (now coalesce : ℕ)
    → find h q.entries ≡ some r
    → is_urgent r.category ≡ true
    → is_urgent category ≡ false
    → find h (admit_new q handle category now coalesce).0.entries ≡ some r
unfolding admit_new
new_keeps q h r handle category now coalesce p u o =
    elim (Bool-cases (leb q.bound (length q.entries))) [
      | inl full ↦ rw full (full_keeps q h r _ p u o)
      | inr room ↦ rw room (find-append h q.entries _ r p)
    ]

-- If an urgent wake waits for a device, admitting a wake that is not urgent, for any device,
-- leaves it waiting with the same deadline.
pub admit_keeps_rings :
    (q : Queue) (h : List ℕ) (r : Entry) (handle : List ℕ) (category : Category) (now coalesce : ℕ)
    → find h q.entries ≡ some r
    → is_urgent r.category ≡ true
    → is_urgent category ≡ false
    → find h (admit q handle category now coalesce).0.entries ≡ some r
unfolding admit
admit_keeps_rings q h r handle category now coalesce p u o =
    elim (Option-cases (find handle q.entries)) [
      | inl fresh ↦ rw (fresh, admit) (new_keeps q h r handle category now coalesce p u o)
      | inr (existing, there) ↦ rw (there, admit) (unfold admit_pending in ground arith)
    ]

find-overwrite_self :
    (h : List ℕ) (f : Entry → Entry) (xs : List Entry) (x : Entry)
    → ((e : Entry) → (f e).handle ≡ e.handle)
    → find h xs ≡ some x
    → find h (overwrite h f xs) ≡ some (f x)
unfolding find overwrite
find-overwrite_self h f [] x same p = cc
find-overwrite_self h f (y ∷ xs) x same p = elim (Bool-cases (bytes_eq y.handle h)) [
  | inl hit ↦
      let still : bytes_eq (f y).handle h ≡ true = ap (λ k. bytes_eq k h) (same y) ∙ hit in
      rw hit (rw still (ap (λ e. some (f e)) (first hit)))
  | inr miss ↦ rw miss (rw miss (find-overwrite_self h f xs x same (rest miss)))
]
  where
    first : bytes_eq y.handle h ≡ true → y ≡ x
    first hit = ground arith

    rest : bytes_eq y.handle h ≡ false → find h xs ≡ some x
    rest miss = ground arith

-- The wake that waits for `handle`.
abbrev pub Rings : ℕ → List ℕ → Queue → Queue → Type 0
Rings now handle before after =
    (e : Entry) × (find handle after.entries ≡ some e)
    × (is_urgent e.category ≡ true)
    × ((e.due_at ≡ now) ⊎ (find handle before.entries ≡ some e))

full-Rings :
    (q : Queue) (e : Entry)
    → find e.handle q.entries ≡ none
    → is_urgent e.category ≡ true
    → Rings e.due_at e.handle q (admit_full q e).0
unfolding admit_full
full-Rings q e fresh u =
    let here = bytes_eq_refl e.handle in
    elim (Option-cases (position (λ x. not (is_urgent x.category)) q.entries)) [
      | inl all ↦
          rw (all, admit_full)
            (rw u (
              e,
              find-append_none e.handle (pop_front q.entries) e
                  (find-pop_front e.handle q.entries fresh) here,
              u,
              inl refl,
            ))
      | inr (i, there) ↦
          rw (there, admit_full)
            (
              e,
              find-append_none e.handle (remove i q.entries) e
                  (find-remove e.handle i q.entries fresh) here,
              u,
              inl refl,
            )
    ]

new-Rings :
    (q : Queue) (handle : List ℕ) (category : Category) (now coalesce : ℕ)
    → is_urgent category ≡ true
    → find handle q.entries ≡ none
    → Rings now handle q (admit_new q handle category now coalesce).0
unfolding admit_new
new-Rings q handle category now coalesce u fresh =
    let e : Entry = record { handle = handle; category = category; due_at = now } in
    rw u (elim (Bool-cases (leb q.bound (length q.entries))) [
      | inl full ↦ rw full (full-Rings q e fresh u)
      | inr room ↦
          rw room (e, find-append_none handle q.entries e fresh (bytes_eq_refl handle), u, inl refl)
    ])

pending-Rings :
    (q : Queue) (handle : List ℕ) (existing : Entry) (category : Category) (now : ℕ)
    → is_urgent category ≡ true
    → find handle q.entries ≡ some existing
    → Rings now handle q (admit_pending q handle existing category now).0
unfolding admit_pending
pending-Rings q handle existing category now u there =
    let ring : Entry → Entry =
      λ e. record { handle = e.handle; category = category; due_at = now } in
    elim (Bool-cases (is_urgent existing.category)) [
      | inl rung ↦ rw rung (existing, there, rung, inr there)
      | inr ordinary ↦
          rw (ordinary, u)
            (
              ring existing,
              find-overwrite_self handle ring q.entries existing (λ e. refl) there,
              u,
              inl refl,
            )
    ]

-- Behind the admission of an urgent wake an urgent wake waits for its device, which is due now or
-- is the one that waited before.
pub admit-Rings :
    (q : Queue) (handle : List ℕ) (category : Category) (now coalesce : ℕ)
    → is_urgent category ≡ true
    → Rings now handle q (admit q handle category now coalesce).0
unfolding admit
admit-Rings q handle category now coalesce u = elim (Option-cases (find handle q.entries)) [
  | inl fresh ↦
      let step : admit q handle category now coalesce ≡ admit_new q handle category now coalesce =
        rw (fresh, admit) in
      subst (λ p. Rings now handle q p.0) (sym step)
        (new-Rings q handle category now coalesce u fresh)
  | inr (existing, there) ↦
      let step : admit q handle category now coalesce
          ≡ admit_pending q handle existing category now =
        rw (there, admit) in
      subst (λ p. Rings now handle q p.0) (sym step)
        (pending-Rings q handle existing category now u there)
]
