-- ===== src/Session/Rate.antt =====
-- backend/wealdrelay/src/session.rs: how much work of one budget a connection hands over in a minute,
-- whatever frames it sends.
use wealdrelay.Base.{
  ℕ, ◌+◌, ◌-◌, ◌*◌, ◌≤◌, ◌<◌, ◌≡◌, refl, sym, ap, ◌∙◌, arith, Bool, true, false, List, [], ◌∷◌, leb,
  ltb, if◌then◌else◌, Bool-cases, inl, inr,
}
use wealdrelay.Frame.Body.{Frame}
use wealdrelay.Session.Work
use wealdrelay.Session.Work.{Work, Reaction, defer, policy}
use wealdrelay.Session.Meter.{Session, Meter, budget}
use wealdrelay.Session.FrameBudget.{FrameBudget, roll, charge, frame_budget_window_ms}
use wealdrelay.Session.Handle.{handle}
use wealdrelay.Session.Spec.{charged, uses, allowance, ceiling}
use wealdrelay.Session.Charges.{handle-charges, handle-ceiling}

-- A frame and the time it is handled.
pub record Arrival : Type 0 where
  pub frame : Frame
  pub now : ℕ

-- Arrivals in the order of their times, from `last` on and before `until`.
abbrev pub ordered : ℕ → ℕ → List Arrival → Bool
ordered last until [] = true
ordered last until (a ∷ rest) =
    if leb last a.now then if ltb a.now until then ordered a.now until rest else false else false

-- The work of one budget that a run of frames hands over.
module _ (blake3 : List ℕ → List ℕ) (secret : List ℕ) where
  unfoldable pub handed_over : Meter → Session → List Arrival → ℕ
  unfolding handle
  handed_over n s [] = 0
  handed_over n s (a ∷ rest) =
      let (after, reaction) = handle blake3 secret s a.frame a.now in
      (if uses n reaction then 1 else 0) + handed_over n after rest

ordered-cons :
    (last until : ℕ) (a : Arrival) (rest : List Arrival)
    → ordered last until (a ∷ rest) ≡ true
    → (last ≤ a.now) × (a.now < until) × (ordered a.now until rest ≡ true)
ordered-cons last until a rest h = ground arith

-- What a budget can still take before `from` is a window past.
abbrev room : ℕ → ℕ → FrameBudget → ℕ
room from allowance b =
    (allowance - b.spent) + (if ltb b.window_started_ms from then allowance else 0)

charge-room :
    (b : FrameBudget) (from now allowance : ℕ)
    → b.window_started_ms ≤ now
    → from ≤ now
    → now < from + frame_budget_window_ms
    → (charge b now allowance).1 ≡ true
    → ((charge b now allowance).0.window_started_ms ≤ now)
      × (room from allowance (charge b now allowance).0 + 1 ≤ room from allowance b)
unfolding charge roll
charge-room b from now allowance h f u e = ground arith

allowance-ceiling :
    (s : Session) (w : Work) (n : Meter) → uses n (defer w) ≡ true → allowance s w ≡ ceiling s n
unfolding policy
allowance-ceiling s w n h = ground arith

pub charged-used :
    (s : Session) (n : Meter) (r : Reaction) (now : ℕ)
    → uses n r ≡ true
    → charged s n r now ≡ charge (budget n s) now (ceiling s n)
charged-used s n (Work.reply _) now h = cc
charged-used s n (Work.reply_and_close _) now h = cc
charged-used s n (defer w) now h = rw (h, allowance-ceiling s w n h) refl

pub charged-unused :
    (s : Session) (n : Meter) (r : Reaction) (now : ℕ)
    → uses n r ≡ false
    → charged s n r now ≡ (budget n s, true)
charged-unused s n (Work.reply _) now h = refl
charged-unused s n (Work.reply_and_close _) now h = refl
charged-unused s n (defer w) now h = rw h refl

module _ (blake3 : List ℕ → List ℕ) (secret : List ℕ) where
  handed_over-room :
      (run : List Arrival) (n : Meter) (s : Session) (from last : ℕ)
      → from ≤ last
      → (budget n s).window_started_ms ≤ last
      → ordered last (from + frame_budget_window_ms) run ≡ true
      → handed_over blake3 secret n s run ≤ room from (ceiling s n) (budget n s)
  unfolding handed_over
  handed_over-room [] n s from last f h o = omega arith
  handed_over-room (a ∷ rest) n s from last f h o =
      let after = (handle blake3 secret s a.frame a.now).0 in
      let reaction = (handle blake3 secret s a.frame a.now).1 in
      let (late, soon, o') = ordered-cons last (from + frame_budget_window_ms) a rest o in
      let spending = handle-charges blake3 secret s a.frame a.now n in
      let same = handle-ceiling blake3 secret s a.frame a.now n in
      elim (Bool-cases (uses n reaction)) [
        | inl used ↦
            let e = sym (charged-used s n reaction a.now used) ∙ spending in
            let (h', less) =
              charge-room (budget n s) from a.now (ceiling s n) (omega arith) (omega arith) soon
                (ap (λ p. p.1) e) in
            let b = ap (λ p. p.0) e in
            let ih = handed_over-room rest n after from a.now (omega arith) (rw (← b) h') o' in
            rw used (ground (arith, ih, less, same, b))
        | inr unused ↦
            let b = ap (λ p. p.0) (sym spending ∙ charged-unused s n reaction a.now unused) in
            let ih =
              handed_over-room rest n after from a.now (omega arith) (rw b (omega arith)) o' in
            rw unused (ground (arith, ih, same, b))
      ]

  -- For a run of frames in the order of their times, all within one minute of `from`, on a session
  -- whose window of a budget started by then: the work of that budget that the run hands over is
  -- at most twice what the budget takes in a window.
  pub handed_over-bound :
      (run : List Arrival) (n : Meter) (s : Session) (from : ℕ)
      → (budget n s).window_started_ms ≤ from
      → ordered from (from + frame_budget_window_ms) run ≡ true
      → handed_over blake3 secret n s run ≤ 2 * ceiling s n
  handed_over-bound run n s from h o =
      ground (arith, handed_over-room run n s from from (omega arith) h o)
