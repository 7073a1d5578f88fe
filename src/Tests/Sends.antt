-- ===== src/Tests/Sends.antt =====
-- A budget of three frames or 1000 bytes for backend/wealdrelay/src/send_budget.rs, part of it spent.
use wealdrelay.Base.{
  ℕ, ◌+◌, ◌-◌, ◌^◌, ◌≤◌, ◌<◌, ◌≡◌, ◌↔◌, min, ok, err, refl, arith, List, [], ◌∷◌, ◌&&◌,
  if◌then◌else◌, bytes_eq, lookup, Keyed,
}
use wealdrelay.Push.Category.{saturating_add}
use wealdrelay.SendBudget.{SendBudget, frame_rate, byte_rate, charge, spent}
use wealdrelay.SendBudget.Spent.{is_ok, charge-verdict, charge-spent}
use wealdrelay.SendBudget.Window.{Sent, Within, accepted, accepted-Within}

abbrev phone : List ℕ
phone = 1 ∷ []

abbrev laptop : List ℕ
laptop = 2 ∷ []

-- The phone has sent one frame of 400 bytes in window 2.
abbrev budget : SendBudget
budget = record {
  devices = (phone, record { window = 2; frames = 1; bytes = 400 }) ∷ [];
  frames_per_window = 3;
  bytes_per_window = 1000;
}

budget-Keyed : Keyed budget.devices
budget-Keyed = (unfold lookup in refl, tt)

charge-verdict_example :
    let verdict = (charge budget phone 700 130_000).1 in
    let frames = min ((spent budget phone 130_000).0 + 1) (2 ^ 64 - 1) in
    let sent = min ((spent budget phone 130_000).1 + 700) (2 ^ 64 - 1) in
    ((verdict ≡ ok tt) ↔ ((frames ≤ 3) × (sent ≤ 1000)))
    × ((verdict ≡ err frame_rate) ↔ (3 < frames))
    × ((verdict ≡ err byte_rate) ↔ ((frames ≤ 3) × (1000 < sent)))
charge-verdict_example = charge-verdict budget phone 700 130_000 budget-Keyed

charge-spent_example : spent (charge budget phone 300 130_000).0 laptop 140_000 ≡ (
    if bytes_eq phone laptop && is_ok (charge budget phone 300 130_000).1
    then (
      saturating_add (spent budget phone 130_000).0 1,
      saturating_add (spent budget phone 130_000).1 300,
    )
    else spent budget laptop 140_000)
charge-spent_example = charge-spent budget phone laptop 300 130_000 140_000 budget-Keyed refl

abbrev sends : List Sent
sends =
    record { device = phone; size = 300; now = 130_000 }
    ∷ record { device = laptop; size = 900; now = 140_000 }
    ∷ record { device = phone; size = 400; now = 150_000 }
    ∷ []

accepted-Within_example : Within budget phone 125_000 (accepted phone budget sends)
accepted-Within_example =
    accepted-Within sends budget phone 125_000 budget-Keyed
      (record { frames_limited = omega arith; bytes_limited = omega arith })
      (refl, (refl, (refl, tt))) (unfold spent lookup in omega arith)
      (unfold spent lookup in omega arith)
