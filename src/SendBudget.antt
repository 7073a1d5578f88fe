-- ===== src/SendBudget.antt =====
-- backend/wealdrelay/src/send_budget.rs: the per-device inbound budget on SEND. A device is its key,
-- the hash map of counters a list of pairs, and `now_ms` an argument of each call.
pub mod Spent
pub mod Window
use wealdrelay.Base.{
  ℕ, ◌+◌, ◌-◌, ◌*◌, ◌/◌, ◌^◌, Bool, true, false, Option, none, some, List, [], ◌∷◌, ltb, leb, ◌==◌,
  if◌then◌else◌, length, max, min, Result, ok, err, lookup, insert, retain, to_be_bytes,
}
use wealdrelay.Frame.Code.{
  ErrorCode, rate_limited, FrameError, new_error, with_retry_after, with_detail,
}
use wealdrelay.Push.Category.{saturating_add}

abbrev pub send_window_ms : ℕ
send_window_ms = 60_000

abbrev pub default_send_frames_per_minute : ℕ
default_send_frames_per_minute = 6_000

abbrev pub default_send_bytes_per_minute : ℕ
default_send_bytes_per_minute = 64 * 1024 * 1024

abbrev pub max_tracked_devices : ℕ
max_tracked_devices = 4_096

pub data SendRefusal : Type 0 where
  frame_rate byte_rate : SendRefusal

pub record DeviceUsage : Type 0 where
  pub window : ℕ
  pub frames : ℕ
  pub bytes : ℕ

pub record SendBudget : Type 0 where
  pub devices : List (List ℕ × DeviceUsage)
  pub frames_per_window : ℕ
  pub bytes_per_window : ℕ

unfoldable pub code : SendRefusal → ErrorCode
code frame_rate = rate_limited
code byte_rate = rate_limited

unfoldable pub retry_after : SendRefusal → ℕ
retry_after r = max (send_window_ms / 1_000) 1

unfoldable pub detail : SendRefusal → SendBudget → ℕ
detail frame_rate b = b.frames_per_window
detail byte_rate b = b.bytes_per_window

unfoldable pub to_frame_error : SendRefusal → SendBudget → FrameError
unfolding code retry_after detail to_be_bytes new_error with_retry_after with_detail
to_frame_error r b =
    with_detail (to_be_bytes 8 (detail r b)) (with_retry_after (retry_after r) (new_error (code r)))

unfoldable pub new : ℕ → ℕ → SendBudget
new frames bytes = record { devices = []; frames_per_window = frames; bytes_per_window = bytes }

unfoldable pub sweep : ℕ → List (List ℕ × DeviceUsage) → List (List ℕ × DeviceUsage)
unfolding retain
sweep window devices =
    if leb (length devices) max_tracked_devices
    then devices
    else retain (λ usage. usage.window == window) devices

-- `entry(device).or_default()`, and the reset of counters of another window.
unfoldable pub current : ℕ → Option DeviceUsage → DeviceUsage
current window none = record { window = window; frames = 0; bytes = 0 }
current window (some usage) =
    if usage.window == window then usage else record { window = window; frames = 0; bytes = 0 }

unfoldable pub decide : SendBudget → ℕ → ℕ → Result SendRefusal (Unit {0})
decide b frames spent =
    if ltb b.frames_per_window frames
    then err frame_rate
    else if ltb b.bytes_per_window spent
    then err byte_rate
    else ok tt

-- The counters of the device after the decision.
unfoldable pub settle : Result SendRefusal (Unit {0}) → DeviceUsage → ℕ → ℕ → DeviceUsage
settle (ok _) usage frames spent = record usage { frames = frames; bytes = spent }
settle (err _) usage frames spent = usage

unfoldable pub charge : SendBudget → List ℕ → ℕ → ℕ → SendBudget × Result SendRefusal (Unit {0})
unfolding sweep lookup insert current decide settle
charge b device bytes now =
    let window = now / send_window_ms in
    let devices = sweep window b.devices in
    let usage = current window (lookup device devices) in
    let frames = saturating_add usage.frames 1 in
    let spent = saturating_add usage.bytes bytes in
    let verdict = decide b frames spent in
    (record b { devices = insert device (settle verdict usage frames spent) devices }, verdict)

-- What a device has spent in the window of `now`.
unfoldable pub spent : SendBudget → List ℕ → ℕ → ℕ × ℕ
unfolding lookup
spent b device now = elim (lookup device b.devices) [
  | none ↦ (0, 0)
  | some usage ↦
      if usage.window == now / send_window_ms then (usage.frames, usage.bytes) else (0, 0)
]

unfoldable pub tracked : SendBudget → ℕ
tracked b = length b.devices
