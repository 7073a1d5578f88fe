-- ===== src/SendBudget/Spent.antt =====
-- backend/wealdrelay/src/send_budget.rs: what one charge does to what each device has spent.
use wealdrelay.Base.{
  ℕ, ◌+◌, ◌-◌, ◌/◌, ◌^◌, ◌≤◌, ◌<◌, ◌≡◌, ◌↔◌, min, refl, sym, ap, ◌∙◌, arith, Bool, true, false,
  Option, none, some, List, ◌&&◌, ◌==◌, if◌then◌else◌, Result, ok, err, lookup, Keyed,
  lookup-insert, lookup-retain, insert-Keyed, retain-Keyed, bytes_eq, bytes_eq_sound, bytes_eq_refl,
  Bool-cases, Option-cases, inl, inr,
}
use mathlib.Core.Path.{ap₂}
use wealdrelay.Push.Category.{saturating_add}
use wealdrelay.SendBudget.{
  SendBudget, DeviceUsage, SendRefusal, frame_rate, byte_rate, send_window_ms, sweep, current,
  decide, settle, charge, spent,
}

abbrev pub is_ok : {E : Type 0} → Result E (Unit {0}) → Bool
is_ok (ok _) = true
is_ok (err _) = false

-- The counters that an entry shows in a window.
abbrev view : ℕ → Option DeviceUsage → ℕ × ℕ
view window none = (0, 0)
view window (some usage) = if usage.window == window then (usage.frames, usage.bytes) else (0, 0)

view-sweep :
    (window : ℕ) (k : List ℕ) (m : List (List ℕ × DeviceUsage))
    → Keyed m
    → view window (lookup k (sweep window m)) ≡ view window (lookup k m)
unfolding sweep
view-sweep window k m d = elim (Option-cases (lookup k m)) [
  | inl e ↦ ground (arith, lookup-retain (λ usage. usage.window == window) k m d)
  | inr (u, e) ↦ ground (arith, lookup-retain (λ usage. usage.window == window) k m d)
]

sweep-Keyed : (window : ℕ) (m : List (List ℕ × DeviceUsage)) → Keyed m → Keyed (sweep window m)
unfolding sweep
sweep-Keyed window m d = ground (arith, retain-Keyed (λ usage. usage.window == window) m d)

-- A charge keeps each device's counters in one place.
pub charge-Keyed :
    (b : SendBudget) (device : List ℕ) (bytes now : ℕ)
    → Keyed b.devices
    → Keyed (charge b device bytes now).0.devices
unfolding charge
charge-Keyed b device bytes now d = insert-Keyed device _ _ (sweep-Keyed _ b.devices d)

view-current :
    (window : ℕ) (o : Option DeviceUsage)
    → ((current window o).window ≡ window)
      × ((current window o).frames ≡ (view window o).0)
      × ((current window o).bytes ≡ (view window o).1)
unfolding current
view-current window none = (refl, refl, refl)
view-current window (some u) = ground arith

spent-view :
    (b : SendBudget) (k : List ℕ) (now : ℕ)
    → spent b k now ≡ view (now / send_window_ms) (lookup k b.devices)
unfolding spent
spent-view b k now = ground arith

-- The counters that a charge starts from are what the device has spent.
counted :
    (b : SendBudget) (device : List ℕ) (now : ℕ)
    → Keyed b.devices
    → let w = now / send_window_ms in
      let usage = current w (lookup device (sweep w b.devices)) in
      (usage.window ≡ w)
      × (usage.frames ≡ (spent b device now).0)
      × (usage.bytes ≡ (spent b device now).1)
counted b device now d =
    let w = now / send_window_ms in
    let same = view-sweep w device b.devices d ∙ sym (spent-view b device now) in
    let (a, f, n) = view-current w (lookup device (sweep w b.devices)) in
    (a, f ∙ ap (λ p. p.0) same, n ∙ ap (λ p. p.1) same)

-- The decision of a charge, on what was spent before it.
pub charge-decides :
    (b : SendBudget) (device : List ℕ) (bytes now : ℕ)
    → Keyed b.devices
    → (charge b device bytes now).1
      ≡ decide b
          (saturating_add (spent b device now).0 1)
          (saturating_add (spent b device now).1 bytes)
unfolding charge
charge-decides b device bytes now d =
    let (_, f, n) = counted b device now d in
    ap₂ (λ x y. decide b (saturating_add x 1) (saturating_add y bytes)) f n

decide-limits :
    (b : SendBudget) (frames n : ℕ)
    → ((decide b frames n ≡ ok tt) ↔ ((frames ≤ b.frames_per_window) × (n ≤ b.bytes_per_window)))
      × ((decide b frames n ≡ err frame_rate) ↔ (b.frames_per_window < frames))
      × ((decide b frames n ≡ err byte_rate)
          ↔ ((frames ≤ b.frames_per_window) × (b.bytes_per_window < n)))
unfolding decide
decide-limits b frames n = ground arith

-- On a map with each device once, take what the device has spent in the window of `now` with this
-- frame and its bytes added, each at most 2^64 - 1. `charge` accepts exactly when both are at most
-- their limits, refuses for the frame rate exactly when the frames are above theirs, and refuses
-- for the byte rate exactly when the frames are within theirs and the bytes above.
pub charge-verdict :
    (b : SendBudget) (device : List ℕ) (bytes now : ℕ)
    → Keyed b.devices
    → let verdict = (charge b device bytes now).1 in
      let frames = min ((spent b device now).0 + 1) (2 ^ 64 - 1) in
      let sent = min ((spent b device now).1 + bytes) (2 ^ 64 - 1) in
      ((verdict ≡ ok tt) ↔ ((frames ≤ b.frames_per_window) × (sent ≤ b.bytes_per_window)))
      × ((verdict ≡ err frame_rate) ↔ (b.frames_per_window < frames))
      × ((verdict ≡ err byte_rate) ↔ ((frames ≤ b.frames_per_window) × (b.bytes_per_window < sent)))
charge-verdict b device bytes now d = rw (charge-decides b device bytes now d) (
    decide-limits b (saturating_add (spent b device now).0 1)
      (saturating_add (spent b device now).1 bytes))

view-settle :
    (b : SendBudget) (v : Result SendRefusal (Unit {0})) (w : ℕ) (usage : DeviceUsage)
    (frames n : ℕ)
    → usage.window ≡ w
    → view w (some (settle v usage frames n))
      ≡ (if is_ok v then (frames, n) else (usage.frames, usage.bytes))
unfolding settle
view-settle b (ok _) w usage frames n e = ground arith
view-settle b (err _) w usage frames n e = ground arith

spent_at :
    (b : SendBudget) (k : List ℕ) (now later : ℕ)
    → later / send_window_ms ≡ now / send_window_ms
    → spent b k later ≡ view (now / send_window_ms) (lookup k b.devices)
spent_at b k now later e = spent-view b k later ∙ ap (λ w. view w (lookup k b.devices)) e

-- The device that is charged.
own_spent :
    (b : SendBudget) (device : List ℕ) (bytes now later : ℕ)
    → Keyed b.devices
    → later / send_window_ms ≡ now / send_window_ms
    → spent (charge b device bytes now).0 device later ≡ (
        if is_ok (charge b device bytes now).1
        then (saturating_add (spent b device now).0 1, saturating_add (spent b device now).1 bytes)
        else spent b device later)
unfolding charge
own_spent b device bytes now later d e =
    let w = now / send_window_ms in
    let devices = sweep w b.devices in
    let usage = current w (lookup device devices) in
    let verdict = (charge b device bytes now).1 in
    let (window, f, n) = counted b device now d in
    let after =
      settle verdict usage (saturating_add usage.frames 1) (saturating_add usage.bytes bytes) in
    ground (
      arith,
      spent_at (charge b device bytes now).0 device now later e,
      spent_at b device now later e,
      spent_at b device now now refl,
      lookup-insert device device after devices,
      bytes_eq_refl device,
      view-settle b verdict w usage (saturating_add usage.frames 1)
          (saturating_add usage.bytes bytes) window,
    )

-- Any other device.
other_spent :
    (b : SendBudget) (device other : List ℕ) (bytes now later : ℕ)
    → Keyed b.devices
    → later / send_window_ms ≡ now / send_window_ms
    → bytes_eq device other ≡ false
    → spent (charge b device bytes now).0 other later ≡ spent b other later
unfolding charge
other_spent b device other bytes now later d e ne =
    let w = now / send_window_ms in
    let devices = sweep w b.devices in
    spent_at (charge b device bytes now).0 other now later e
    ∙ ap (view w) (lookup-insert other device _ devices ∙ rw ne)
    ∙ view-sweep w other b.devices d
    ∙ sym (spent_at b other now later e)

-- On a map with each device once, and seen at any time in the window of `now`: an accepted charge
-- adds one frame and its bytes, saturating, to what its device has spent, a refused one adds
-- nothing, and no charge changes what another device has spent.
pub charge-spent :
    (b : SendBudget) (device other : List ℕ) (bytes now later : ℕ)
    → Keyed b.devices
    → later / send_window_ms ≡ now / send_window_ms
    → spent (charge b device bytes now).0 other later ≡ (
        if bytes_eq device other && is_ok (charge b device bytes now).1
        then (saturating_add (spent b device now).0 1, saturating_add (spent b device now).1 bytes)
        else spent b other later)
charge-spent b device other bytes now later d e = elim (Bool-cases (bytes_eq device other)) [
  | inl same ↦
      let is : device ≡ other = bytes_eq_sound device other same in
      rw (← is, bytes_eq_refl device) (own_spent b device bytes now later d e)
  | inr ne ↦ rw ne (other_spent b device other bytes now later d e ne)
]

-- What is spent depends on the window alone.
pub spent-window :
    (b : SendBudget) (k : List ℕ) (now later : ℕ)
    → later / send_window_ms ≡ now / send_window_ms
    → spent b k later ≡ spent b k now
spent-window b k now later e = spent_at b k now later e ∙ sym (spent-view b k now)

pub charge-limits :
    (b : SendBudget) (device : List ℕ) (bytes now : ℕ)
    → ((charge b device bytes now).0.frames_per_window ≡ b.frames_per_window)
      × ((charge b device bytes now).0.bytes_per_window ≡ b.bytes_per_window)
unfolding charge
charge-limits b device bytes now = (refl, refl)
