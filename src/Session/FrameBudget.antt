-- ===== src/Session/FrameBudget.antt =====
-- backend/wealdrelay/src/session.rs: the fixed window on one kind of frame.
use wealdrelay.Base.{ℕ, ◌+◌, ◌-◌, Bool, true, false, ◌||◌, ltb, leb, if◌then◌else◌}

abbrev pub frame_budget_window_ms : ℕ
frame_budget_window_ms = 60_000

pub record FrameBudget : Type 0 where
  pub window_started_ms : ℕ
  pub spent : ℕ

abbrev pub default : FrameBudget
default = record { window_started_ms = 0; spent = 0 }

-- The budget in the window that holds `now`.
unfoldable pub roll : FrameBudget → ℕ → FrameBudget
roll b now =
    if ltb now b.window_started_ms || leb frame_budget_window_ms (now - b.window_started_ms)
    then record { window_started_ms = now; spent = 0 }
    else b

-- `charge`, with the budget as it leaves it.
unfoldable pub charge : FrameBudget → ℕ → ℕ → FrameBudget × Bool
unfolding roll
charge b now allowance =
    let b = roll b now in
    if leb allowance b.spent then (b, false) else (record b { spent = b.spent + 1 }, true)
