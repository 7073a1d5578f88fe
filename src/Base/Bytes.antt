-- ===== src/Base/Bytes.antt =====
-- Bytes and big-endian numbers. `to_be_bytes` is Rust's, for a width of `n` bytes.
use Prim.Native.Nat.{ℕ, zero, suc, ◌+◌, ◌*◌, ◌/◌, ◌%◌, ◌^◌, ◌≤◌, ◌<◌}
use mathlib.Core.Path.{◌≡◌, ap, ◌∙◌}
use mathlib.Core.List.{List, [], ◌∷◌, ◌++◌, append-nil}
use native.Mathlib.Omega.{arith}
use native.Mathlib.Nat.{pow-suc, mul-le-mul_right}
use wealdrelay.Base.Lists.{length, All}

abbrev pub IsByte : ℕ → Type 0
IsByte b = b < 256

abbrev pub IsU64 : ℕ → Type 0
IsU64 v = v < 2 ^ 64

abbrev pub AreBytes : List ℕ → Type 0
AreBytes = All IsByte

-- The `n` low bytes of `v`, most significant first, in front of `out`.
pub be_onto : ℕ → ℕ → List ℕ → List ℕ
be_onto zero v out = out
be_onto (suc n) v out = be_onto n (v / 256) ((v % 256) ∷ out)

unfoldable pub to_be_bytes : ℕ → ℕ → List ℕ
unfolding be_onto
to_be_bytes n v = be_onto n v []

-- The number that big-endian bytes spell, read behind `acc`.
unfoldable pub of_be : ℕ → List ℕ → ℕ
of_be acc [] = acc
of_be acc (b ∷ bs) = of_be (acc * 256 + b) bs

of_be-be_onto :
    (n acc v : ℕ) (out : List ℕ)
    → v < 256 ^ n
    → of_be acc (be_onto n v out) ≡ of_be (acc * 256 ^ n + v) out
unfolding of_be be_onto
of_be-be_onto zero acc v out h = ground arith
of_be-be_onto (suc n) acc v out h =
    of_be-be_onto n acc (v / 256) ((v % 256) ∷ out) (omega (arith, pow-suc 256 n))
    ∙ ap (λ (t : ℕ). of_be t out) (omega (arith, ap (λ (t : ℕ). acc * t) (pow-suc 256 n)))

pub of_be-to_be_bytes : (n v : ℕ) → v < 256 ^ n → of_be 0 (to_be_bytes n v) ≡ v
unfolding to_be_bytes of_be
of_be-to_be_bytes n v h = ground (arith, of_be-be_onto n 0 v [])

be_onto-of_be :
    (xs : List ℕ) (n k acc : ℕ) (out : List ℕ)
    → AreBytes xs
    → n ≡ length xs + k
    → be_onto n (of_be acc xs) out ≡ be_onto k acc (xs ++ out)
unfolding of_be be_onto
be_onto-of_be [] n k acc out h e = ground arith
be_onto-of_be (x ∷ xs) n k acc out (hx, h) e =
    ground (arith, be_onto-of_be xs n (suc k) (acc * 256 + x) out h (omega arith))

-- Bytes are the big-endian spelling of the number that they spell.
pub to_be_bytes-of_be : (xs : List ℕ) → AreBytes xs → to_be_bytes (length xs) (of_be 0 xs) ≡ xs
unfolding to_be_bytes
to_be_bytes-of_be xs h = be_onto-of_be xs (length xs) 0 0 [] h (omega arith) ∙ append-nil xs

length-be_onto : (n v : ℕ) (out : List ℕ) → length (be_onto n v out) ≡ n + length out
unfolding be_onto
length-be_onto zero v out = omega arith
length-be_onto (suc n) v out = omega (arith, length-be_onto n (v / 256) ((v % 256) ∷ out))

pub length-to_be_bytes : (n v : ℕ) → length (to_be_bytes n v) ≡ n
unfolding to_be_bytes
length-to_be_bytes n v = omega (arith, length-be_onto n v [])

be_onto-AreBytes : (n v : ℕ) (out : List ℕ) → AreBytes out → AreBytes (be_onto n v out)
unfolding be_onto
be_onto-AreBytes zero v out h = h
be_onto-AreBytes (suc n) v out h = be_onto-AreBytes n (v / 256) ((v % 256) ∷ out) (omega arith, h)

pub to_be_bytes-AreBytes : (n v : ℕ) → AreBytes (to_be_bytes n v)
unfolding to_be_bytes
to_be_bytes-AreBytes n v = be_onto-AreBytes n v [] tt

scaled : (acc x : ℕ) → x < 256 → acc * 256 + x + 1 ≤ (acc + 1) * 256
scaled acc x h = omega arith

pub of_be-lt : (acc : ℕ) (xs : List ℕ) → AreBytes xs → of_be acc xs < (acc + 1) * 256 ^ length xs
unfolding of_be
of_be-lt acc [] h = omega arith
of_be-lt acc (x ∷ xs) (hx, h) = omega (
  arith,
  pow-suc 256 (length xs),
  ap (λ (t : ℕ). acc * t) (pow-suc 256 (length xs)),
  of_be-lt (acc * 256 + x) xs h,
  mul-le-mul_right (256 ^ length xs) (scaled acc x hx),
)
