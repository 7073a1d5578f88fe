-- ===== src/Calls/Registry/Sound/Participants.antt =====
-- backend/wealdrelay/src/calls/mod.rs: the participants of one call.
use wealdrelay.Base.{
  ℕ, ◌≤◌, ◌≡◌, refl, sym, arith, true, false, ◌||◌, not, List, [], ◌∷◌, ◌++◌, if◌then◌else◌, ◌==◌,
  length, Bool-cases, inl, inr,
}
use mathlib.Core.Path.{subst}
use wealdrelay.Calls.{max_participants_per_call}
use wealdrelay.Calls.Registry.{Call, Queued, has, without, is_empty, deliver}
use wealdrelay.Calls.Registry.Members.{has-append, has-without, has-deliver, is_closed}

abbrev pub Distinct : List ℕ → Type 0
Distinct [] = Unit {0}
Distinct (x ∷ xs) = (has x xs ≡ false) × Distinct xs

-- A call has one to five participants, each once.
pub record IsCall (call : Call) : Type 0 where
  pub inhabited : 1 ≤ length call.participants
  pub few : length call.participants ≤ max_participants_per_call
  pub distinct : Distinct call.participants

pub append-Distinct :
    (c : ℕ) (xs : List ℕ) → has c xs ≡ false → Distinct xs → Distinct (xs ++ (c ∷ []))
unfolding has
append-Distinct c [] h d = (refl, tt)
append-Distinct c (x ∷ xs) h d =
    (ground (arith, has-append x c xs, d.0), append-Distinct c xs (ground arith) d.1)

without-Distinct : (c : ℕ) (xs : List ℕ) → Distinct xs → Distinct (without c xs)
unfolding without
without-Distinct c [] d = tt
without-Distinct c (x ∷ xs) d = elim (Bool-cases (x == c)) [
  | inl e ↦ rw e (without-Distinct c xs d.1)
  | inr e ↦ rw e (ground (arith, has-without x c xs, d.0), without-Distinct c xs d.1)
]

length-without : (c : ℕ) (xs : List ℕ) → length (without c xs) ≤ length xs
unfolding without
length-without c [] = omega arith
length-without c (x ∷ xs) = ground (arith, length-without c xs)

inhabited_not_empty : (xs : List ℕ) → is_empty xs ≡ false → 1 ≤ length xs
inhabited_not_empty [] h = cc
inhabited_not_empty (x ∷ xs) h = omega arith

pub inhabited_has : (c : ℕ) (xs : List ℕ) → has c xs ≡ true → 1 ≤ length xs
unfolding has
inhabited_has c [] h = cc
inhabited_has c (x ∷ xs) h = omega arith

pub length-deliver :
    (q : ℕ → Queued) (from : ℕ) (xs : List ℕ) → length (deliver q from xs).1 ≤ length xs
unfolding deliver
length-deliver q from [] = omega arith
length-deliver q from (x ∷ xs) = ground (arith, length-deliver q from xs)

deliver-cons :
    (q : ℕ → Queued) (from x : ℕ) (xs : List ℕ)
    → (deliver q from (x ∷ xs)).1 ≡ (
        if (x == from) || not (is_closed (q x))
        then x ∷ (deliver q from xs).1
        else (deliver q from xs).1)
unfolding deliver
deliver-cons q from x xs = ground arith

pub deliver-Distinct :
    (q : ℕ → Queued) (from : ℕ) (xs : List ℕ) → Distinct xs → Distinct (deliver q from xs).1
unfolding deliver
deliver-Distinct q from [] d = tt
deliver-Distinct q from (x ∷ xs) d =
    subst Distinct (sym (deliver-cons q from x xs))
      (elim (Bool-cases ((x == from) || not (is_closed (q x)))) [
        | inl e ↦
            rw e (ground (arith, has-deliver q from x xs, d.0), deliver-Distinct q from xs d.1)
        | inr e ↦ rw e (deliver-Distinct q from xs d.1)
      ])

pub without-IsCall :
    (c : ℕ) (call : Call)
    → IsCall call
    → is_empty (without c call.participants) ≡ false
    → IsCall (record call { participants = without c call.participants })
without-IsCall c call h e = record {
  inhabited = inhabited_not_empty _ e;
  few = omega (arith, length-without c call.participants, h.few);
  distinct = without-Distinct c call.participants h.distinct;
}
