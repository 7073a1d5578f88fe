-- ===== src/Session/Charges/Metered.antt =====
-- backend/wealdrelay/src/session.rs: what a metered arm charges.
use wealdrelay.Base.{
  ℕ, ◌<◌, ◌≡◌, ap, ◌∙◌, arith, true, false, Bool-cases, inl, inr, if◌then◌else◌, none, some,
}
use mathlib.Core.Path.{ap₂}
use wealdrelay.Session.Work.{Work, Reaction, defer}
use wealdrelay.Session.Meter.{Session, Meter, spend, budget, set_budget}
use wealdrelay.Session.FrameBudget.{FrameBudget, roll, charge}
use wealdrelay.Session.Arms.{over_rate, metered}
use wealdrelay.Session.Spec.{charged, same_meter, meter_of, allowance}

-- A refused charge of a positive allowance changes nothing.
charge_refused :
    (b : FrameBudget) (now allowance : ℕ)
    → 0 < allowance
    → (charge b now allowance).1 ≡ false
    → (charge b now allowance).0 ≡ b
unfolding charge roll
charge_refused b now allowance p h = ground arith

same_meter_refl : (m : Meter) → same_meter m m ≡ true
same_meter_refl m = ground arith

budget-set_budget :
    (m n : Meter) (b : FrameBudget) (s : Session)
    → budget n (set_budget m b s) ≡ (if same_meter m n then b else budget n s)
unfolding budget set_budget
budget-set_budget m n b s = ground arith

same_meter_sound : (m n : Meter) → same_meter m n ≡ true → m ≡ n
same_meter_sound m n h = ground arith

abbrev pub Charges : Session → ℕ → Meter → Session × Reaction → Type 0
Charges s now n p = charged s n p.1 now ≡ (budget n p.0, true)

charged-defer :
    (m n : Meter) (w : Work) (a : ℕ) (s : Session) (now : ℕ)
    → meter_of w ≡ some m
    → allowance s w ≡ a
    → charged s n (defer w) now
      ≡ (if same_meter m n then charge (budget n s) now a else (budget n s, true))
charged-defer m n w a s now e q =
    ap₂
      (λ o k.
        if elim o [ none ↦ false | some l ↦ same_meter l n ]
        then charge (budget n s) now k
        else (budget n s, true))
      e q

fitting :
    (m n : Meter) (a : ℕ) (s : Session) (now : ℕ)
    → (charge (budget m s) now a).1 ≡ true
    → (if same_meter m n then charge (budget n s) now a else (budget n s, true))
      ≡ (budget n (set_budget m (charge (budget m s) now a).0 s), true)
fitting m n a s now fits = elim (Bool-cases (same_meter m n)) [
  | inl same ↦
      let is = same_meter_sound m n same in
      ground (
        arith,
        budget-set_budget m n (charge (budget m s) now a).0 s,
        ap (λ k. charge (budget k s) now a) is,
      )
  | inr ne ↦ ground (arith, budget-set_budget m n (charge (budget m s) now a).0 s)
]

refusing :
    (m n : Meter) (a : ℕ) (s : Session) (now : ℕ)
    → 0 < a
    → (charge (budget m s) now a).1 ≡ false
    → budget n s ≡ budget n (set_budget m (charge (budget m s) now a).0 s)
refusing m n a s now p over = elim (Bool-cases (same_meter m n)) [
  | inl same ↦
      let is = same_meter_sound m n same in
      ground (
        arith,
        budget-set_budget m n (charge (budget m s) now a).0 s,
        ap (λ k. budget k s) is,
        charge_refused (budget m s) now a p over,
      )
  | inr ne ↦ ground (arith, budget-set_budget m n (charge (budget m s) now a).0 s)
]

pub metered-Charges :
    (m n : Meter) (w : Work) (a : ℕ) (s : Session) (now : ℕ)
    → meter_of w ≡ some m
    → allowance s w ≡ a
    → 0 < a
    → Charges s now n (metered m a w s now)
unfolding metered spend over_rate
metered-Charges m n w a s now e q p = elim (Bool-cases (charge (budget m s) now a).1) [
  | inl fits ↦ rw fits (charged-defer m n w a s now e q ∙ fitting m n a s now fits)
  | inr over ↦ rw over (ap (λ b. (b, true)) (refusing m n a s now p over))
]
