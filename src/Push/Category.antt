-- ===== src/Push/Category.antt =====
-- The wake categories of backend/wealdrelay/src/push/mod.rs, their mask, and the bounds on a
-- registration.
use wealdrelay.Base.{ℕ, ◌+◌, ◌-◌, ◌*◌, ◌^◌, Bool, true, false, ◌&&◌, not, ltb, leb, ◌==◌, min}
use Prim.Native.Nat.{bit_and}

pub data Category : Type 0 where
  message call handshake : Category

unfoldable pub bit : Category → ℕ
bit message = 1
bit call = 2
bit handshake = 4

unfoldable pub admitted_by : Category → ℕ → Bool
unfolding bit
admitted_by c mask = not (bit_and mask (bit c) == 0)

unfoldable pub is_urgent : Category → Bool
is_urgent call = true
is_urgent _ = false

abbrev pub all_categories : ℕ
all_categories = 7

-- `mask & !ALL_CATEGORIES`, on a byte.
unfoldable pub is_valid_mask : ℕ → Bool
is_valid_mask mask = not (mask == 0) && bit_and mask (255 - all_categories) == 0

abbrev pub max_expiry_ahead_ms : ℕ
max_expiry_ahead_ms = 30 * 24 * 60 * 60 * 1000

-- `u64::saturating_add`
abbrev pub saturating_add : ℕ → ℕ → ℕ
saturating_add a b = min (a + b) (2 ^ 64 - 1)

unfoldable pub expiry_in_bounds : ℕ → ℕ → Bool
expiry_in_bounds expires_at now =
    ltb now expires_at && leb expires_at (saturating_add now max_expiry_ahead_ms)
