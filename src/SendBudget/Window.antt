-- ===== src/SendBudget/Window.antt =====
-- backend/wealdrelay/src/send_budget.rs: what one device gets through in one window, whoever else
-- sends in between.
use wealdrelay.Base.{
  ℕ, ◌+◌, ◌-◌, ◌/◌, ◌^◌, ◌≤◌, ◌<◌, ◌≡◌, sym, ap, ◌∙◌, arith, Bool, true, false, List, [], ◌∷◌, ◌&&◌,
  if◌then◌else◌, length, All, Keyed, bytes_eq, bytes_eq_sound, Bool-cases, inl, inr,
}
use wealdrelay.Push.Category.{saturating_add}
use wealdrelay.SendBudget.{SendBudget, send_window_ms, decide, charge, spent}
use wealdrelay.SendBudget.Spent.{
  is_ok, charge-Keyed, charge-decides, charge-spent, spent-window, charge-limits,
}

-- One `SEND`: a device, a size and a time.
pub record Sent : Type 0 where
  pub device : List ℕ
  pub size : ℕ
  pub now : ℕ

-- The sizes that `device` gets accepted, in order, in a run of charges.
pub accepted : List ℕ → SendBudget → List Sent → List ℕ
accepted device b [] = []
accepted device b (s ∷ rest) =
    let (b', verdict) = charge b s.device s.size s.now in
    let later = accepted device b' rest in
    if bytes_eq s.device device && is_ok verdict then s.size ∷ later else later

abbrev pub sum : List ℕ → ℕ
sum [] = 0
sum (n ∷ ns) = n + sum ns

-- Limits that a `u64` counter can pass.
pub record IsLimited (b : SendBudget) : Type 0 where
  pub frames_limited : b.frames_per_window < 2 ^ 64 - 1
  pub bytes_limited : b.bytes_per_window < 2 ^ 64 - 1

-- What is spent and what gets through stay within the limits together.
pub record Within (b : SendBudget) (device : List ℕ) (now : ℕ) (sizes : List ℕ) : Type 0 where
  pub frames_within : (spent b device now).0 + length sizes ≤ b.frames_per_window
  pub bytes_within : (spent b device now).1 + sum sizes ≤ b.bytes_per_window

-- An accepted charge does not saturate.
exact :
    (b : SendBudget) (frames n size : ℕ)
    → IsLimited b
    → is_ok (decide b (saturating_add frames 1) (saturating_add n size)) ≡ true
    → (saturating_add frames 1 ≡ frames + 1)
      × (saturating_add n size ≡ n + size)
      × (frames + 1 ≤ b.frames_per_window)
      × (n + size ≤ b.bytes_per_window)
unfolding decide
exact b frames n size l h = ground arith

-- The charge of one `SEND` as the device `device` sees it.
abbrev counts : SendBudget → Sent → List ℕ → Bool
counts b s device = bytes_eq s.device device && is_ok (charge b s.device s.size s.now).1

counted_send :
    (b : SendBudget) (s : Sent) (device : List ℕ) (now : ℕ)
    → Keyed b.devices
    → IsLimited b
    → s.now / send_window_ms ≡ now / send_window_ms
    → counts b s device ≡ true
    → let after = spent (charge b s.device s.size s.now).0 device now in
      let before = spent b device now in
      (after.0 ≡ before.0 + 1)
      × (after.1 ≡ before.1 + s.size)
      × (before.0 + 1 ≤ b.frames_per_window)
      × (before.1 + s.size ≤ b.bytes_per_window)
counted_send b s device now k l w c =
    let is : s.device ≡ device = bytes_eq_sound s.device device (ground arith) in
    let fine : is_ok (charge b s.device s.size s.now).1 ≡ true = ground arith in
    let same : spent b s.device s.now ≡ spent b device now =
      spent-window b s.device now s.now w ∙ ap (λ d. spent b d now) is in
    let verdict = charge-decides b s.device s.size s.now k in
    let (f, n, fits, small) =
      exact b (spent b device now).0 (spent b device now).1 s.size l
        (rw (← same) (rw verdict at fine)) in
    let after = charge-spent b s.device device s.size s.now now k (sym w) in
    let after' = after ∙ rw (c, same) in
    (ap (λ p. p.0) after' ∙ f, ap (λ p. p.1) after' ∙ n, fits, small)

uncounted_send :
    (b : SendBudget) (s : Sent) (device : List ℕ) (now : ℕ)
    → Keyed b.devices
    → s.now / send_window_ms ≡ now / send_window_ms
    → counts b s device ≡ false
    → spent (charge b s.device s.size s.now).0 device now ≡ spent b device now
uncounted_send b s device now k w c =
    charge-spent b s.device device s.size s.now now k (sym w) ∙ rw c

-- For a device whose spending in the window of `now` is within both limits, limits below 2^64 - 1
-- and a map with each device once: in any run of charges of that window, by this device and others
-- interleaved, the frames accepted from the device and their bytes, added to what it had spent,
-- stay within the limits.
pub accepted-Within :
    (sends : List Sent) (b : SendBudget) (device : List ℕ) (now : ℕ)
    → Keyed b.devices
    → IsLimited b
    → All (λ s. s.now / send_window_ms ≡ now / send_window_ms) sends
    → (spent b device now).0 ≤ b.frames_per_window
    → (spent b device now).1 ≤ b.bytes_per_window
    → Within b device now (accepted device b sends)
unfolding accepted
accepted-Within [] b device now k l w f n = omega arith
accepted-Within (s ∷ rest) b device now k l w f n =
    let b' = (charge b s.device s.size s.now).0 in
    let (fl, nl) = charge-limits b s.device s.size s.now in
    let k' = charge-Keyed b s.device s.size s.now k in
    let l' : IsLimited b' = omega (arith, fl, nl, l.frames_limited, l.bytes_limited) in
    elim (Bool-cases (counts b s device)) [
      | inl yes_counts ↦
          let (f', n', fits, small) = counted_send b s device now k l w.0 yes_counts in
          let ih =
            accepted-Within rest b' device now k' l' w.1 (omega (arith, fl, f', fits))
              (omega (arith, nl, n', small)) in
          rw yes_counts (omega (arith, ih.frames_within, ih.bytes_within, fl, nl, f', n'))
      | inr not_counted ↦
          let same = uncounted_send b s device now k w.0 not_counted in
          let f' = ap (λ p. p.0) same in
          let n' = ap (λ p. p.1) same in
          let ih =
            accepted-Within rest b' device now k' l' w.1 (omega (arith, fl, f'))
              (omega (arith, nl, n')) in
          rw not_counted (omega (arith, ih.frames_within, ih.bytes_within, fl, nl, f', n'))
    ]
