-- ===== src/Cbor/Head.antt =====
-- Heads in backend/wealdrelay/src/cbor.rs: what `head` writes and what `read_head` accepts.
use native.Mathlib.Decide.{dec_lt}
use wealdrelay.Base.{
  ℕ, zero, suc, ◌+◌, ◌-◌, ◌*◌, ◌/◌, ◌%◌, ◌^◌, ◌≤◌, ◌<◌, ◌≡◌, ap, ◌∙◌, arith, List, [], ◌∷◌, ◌++◌,
  length, drop, AreBytes, IsU64, of_be, to_be_bytes, drop→get_elem?, inl, inr, ◌⊎◌, ok,
  length-to_be_bytes, to_be_bytes-AreBytes, of_be-to_be_bytes,
}
use wealdrelay.Cbor.Encode.{head}
use wealdrelay.Cbor.Reader.{Reader, read_argument, minimum, read_long, dispatch_head, read_head}
use wealdrelay.Cbor.Argument.{read_argument_ok}

-- The two forms of a head: the argument in the initial byte, or behind it in 1, 2, 4 or 8 bytes.
pub head_short : (major v : ℕ) → v < 24 → head major v ≡ (major * 32 % 256 + v) ∷ []
unfolding head
head_short major v h = ground arith

pub head_long :
    (j major v : ℕ)
    → j ≤ 3
    → minimum (2 ^ j) ≤ v
    → v < 256 ^ (2 ^ j)
    → head major v ≡ (major * 32 % 256 + (24 + j)) ∷ to_be_bytes (2 ^ j) v
unfolding head minimum
head_long zero major v hj lo hi = ground arith
head_long (suc zero) major v hj lo hi = ground arith
head_long (suc (suc zero)) major v hj lo hi = ground arith
head_long (suc (suc (suc zero))) major v hj lo hi = ground arith
head_long (suc (suc (suc (suc j)))) major v hj lo hi = absurd (omega arith)

pub record IsLong (v : ℕ) : Type 0 where
  pub exponent : ℕ
  pub bounded : exponent ≤ 3
  pub shortest : minimum (2 ^ exponent) ≤ v
  pub fits : v < 256 ^ (2 ^ exponent)

head_forms : (v : ℕ) → IsU64 v → (v < 24) ⊎ IsLong v
unfolding minimum
head_forms v h = elim (dec_lt v 24) [
  | yes p ↦ inl p
  | no p ↦ inr (elim (dec_lt v 0x100) [
    | yes q ↦ record {
      exponent = 0;
      bounded = omega arith;
      shortest = omega arith;
      fits = omega arith;
    }
    | no q ↦ elim (dec_lt v 0x1_0000) [
      | yes s ↦ record {
        exponent = 1;
        bounded = omega arith;
        shortest = omega arith;
        fits = omega arith;
      }
      | no s ↦ elim (dec_lt v 0x1_0000_0000) [
        | yes t ↦ record {
          exponent = 2;
          bounded = omega arith;
          shortest = omega arith;
          fits = omega arith;
        }
        | no t ↦ record {
          exponent = 3;
          bounded = omega arith;
          shortest = omega arith;
          fits = omega arith;
        }
      ]
    ]
  ])
]

-- `read_head` on a head whose argument stands in the initial byte.
read_head_short :
    (r : Reader) (b : ℕ) (rest : List ℕ)
    → b % 32 < 24
    → drop r.offset r.input ≡ b ∷ rest
    → read_head r ≡ (ok (b / 32, b % 32), record r { offset = r.offset + 1 })
unfolding read_head
read_head_short r b rest h e = ground (arith, drop→get_elem? r.input r.offset e)

long_width : (b j : ℕ) → b % 32 ≡ 24 + j → 2 ^ (b % 32 - 24) ≡ 2 ^ j
long_width b j h = ap (λ (k : ℕ). 2 ^ k) (omega arith)

pub dispatch_long :
    (r : Reader) (b j : ℕ)
    → j ≤ 3
    → b % 32 ≡ 24 + j
    → dispatch_head b r ≡ read_long (b / 32) (2 ^ j) r
unfolding dispatch_head
dispatch_long r b j hj hb = ground (arith, long_width b j)

pub read_long_ok :
    (r : Reader) (major width v : ℕ)
    → read_argument r width 0 0 ≡ ok v
    → minimum width ≤ v
    → read_long major width r ≡ (ok (major, v), record r { offset = r.offset + (1 + width) })
unfolding read_long
read_long_ok r major width v e h = ground arith

pub read_head_at :
    (r : Reader) (b : ℕ) (rest : List ℕ)
    → drop r.offset r.input ≡ b ∷ rest
    → read_head r ≡ dispatch_head b r
unfolding read_head
read_head_at r b rest e = ground (arith, drop→get_elem? r.input r.offset e)

read_head_long :
    (r : Reader) (b j : ℕ) (bs post : List ℕ)
    → j ≤ 3
    → b % 32 ≡ 24 + j
    → AreBytes bs
    → length bs ≡ 2 ^ j
    → length bs ≤ 8
    → drop r.offset r.input ≡ b ∷ (bs ++ post)
    → minimum (2 ^ j) ≤ of_be 0 bs
    → read_head r ≡ (ok (b / 32, of_be 0 bs), record r { offset = r.offset + (1 + 2 ^ j) })
read_head_long r b j bs post hj hb bytes wide le e shortest =
    let same : r.offset + 1 + 0 ≡ suc r.offset = omega arith in
    let behind : drop (r.offset + 1 + 0) r.input ≡ bs ++ post =
      ap (λ (k : ℕ). drop k r.input) same ∙ (drop→get_elem? r.input r.offset e).1 in
    read_head_at r b (bs ++ post) e
    ∙ dispatch_long r b j hj hb
    ∙ read_long_ok r (b / 32) (2 ^ j) (of_be 0 bs)
        (rw wide at (read_argument_ok bs post r 0 0 bytes (omega arith) (omega arith) behind))
        shortest

pub width-le : (j : ℕ) → j ≤ 3 → 2 ^ j ≤ 8
width-le zero h = omega arith
width-le (suc zero) h = omega arith
width-le (suc (suc zero)) h = omega arith
width-le (suc (suc (suc zero))) h = omega arith
width-le (suc (suc (suc (suc j)))) h = absurd (omega arith)

-- What a head that `head` wrote reads back as, whatever follows it.
abbrev pub Reads : Reader → ℕ → ℕ → Type 0
Reads r major v =
    read_head r ≡ (ok (major, v), record r { offset = r.offset + length (head major v) })

Reads-short :
    (r : Reader) (major v : ℕ) (post : List ℕ)
    → major < 8
    → v < 24
    → drop r.offset r.input ≡ head major v ++ post
    → Reads r major v
Reads-short r major v post hm hv e = ground (
  arith,
  head_short major v hv,
  read_head_short r (major * 32 % 256 + v) post (omega arith)
      (e ∙ ap (λ s. s ++ post) (head_short major v hv)),
)

Reads-long :
    (r : Reader) (major v : ℕ) (post : List ℕ)
    → major < 8
    → IsLong v
    → drop r.offset r.input ≡ head major v ++ post
    → Reads r major v
Reads-long r major v post hm l e =
    let j = l.exponent in
    let form = head_long j major v l.bounded l.shortest l.fits in
    let wide = length-to_be_bytes (2 ^ j) v in
    let value = of_be-to_be_bytes (2 ^ j) v l.fits in
    let read =
      read_head_long r (major * 32 % 256 + (24 + j)) j (to_be_bytes (2 ^ j) v) post l.bounded
        (omega (arith, l.bounded)) (to_be_bytes-AreBytes (2 ^ j) v) wide
        (omega (arith, wide, width-le j l.bounded)) (e ∙ ap (λ s. s ++ post) form)
        (rw value l.shortest) in
    ground (arith, form, wide, value, read)

-- In front of what `head` writes for a major type below 8 and a 64-bit argument, whatever follows,
-- `read_head` answers the two and stops behind it.
pub read_head-head :
    (r : Reader) (major v : ℕ) (post : List ℕ)
    → major < 8
    → IsU64 v
    → drop r.offset r.input ≡ head major v ++ post
    → Reads r major v
read_head-head r major v post hm hv e = elim (head_forms v hv) [
  | inl short ↦ Reads-short r major v post hm short e
  | inr long ↦ Reads-long r major v post hm long e
]
