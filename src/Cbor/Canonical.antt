-- ===== src/Cbor/Canonical.antt =====
-- Which heads the cursor of backend/wealdrelay/src/cbor.rs accepts, and where it stands behind a
-- refusal.
use native.Mathlib.Decide.{dec_lt}
use wealdrelay.Base.{
  ℕ, zero, suc, ◌+◌, ◌-◌, ◌*◌, ◌/◌, ◌%◌, ◌^◌, ◌≤◌, ◌<◌, ◌≡◌, refl, ap, ◌∙◌, none, arith, List, [],
  ◌∷◌, ◌++◌, length, drop, get_elem?, AreBytes, IsU64, of_be, to_be_bytes, get_elem?→drop,
  All-get_elem?, Option-cases, inl, inr, Result, ok, err, Result-cases, to_be_bytes-of_be, of_be-lt,
  lt→ltb,
}
use wealdrelay.Cbor.Encode.{head}
use wealdrelay.Cbor.Reader.{
  CborError, Reader, read_argument, minimum, read_long, dispatch_head, read_head,
}
use wealdrelay.Cbor.Argument.{Spelt, read_argument_inv}
use wealdrelay.Cbor.Head.{
  head_short, head_long, dispatch_long, read_long_ok, read_head_at, width-le,
}

-- The cursor went from `r` to `s` over exactly the bytes `written`.
pub record Consumed (r s : Reader) (written : List ℕ) : Type 0 where
  pub same_input : s.input ≡ r.input
  pub moved : s.offset ≡ r.offset + length written
  pub spelled : drop r.offset r.input ≡ written ++ drop s.offset r.input

-- What a method may answer: a value of which `P` holds with the reader behind it, or an error that
-- leaves the reader alone.
abbrev pub Answers :
    {A : Type 0} → Reader → (A → Reader → Type 0) → Result CborError A × Reader → Type 0
Answers r P (ok a, s) = P a s
Answers r P (err e, s) = s ≡ r

abbrev pub HeadAt : Reader → ℕ × ℕ → Reader → Type 0
HeadAt r (major, v) s = (major < 8) × IsU64 v × Consumed r s (head major v)

same_byte : (b : ℕ) → b < 256 → b / 32 * 32 % 256 + b % 32 ≡ b
same_byte b h = omega arith

-- A head of one byte.
one_byte :
    (r : Reader) (b : ℕ)
    → b < 256
    → b % 32 < 24
    → drop r.offset r.input ≡ b ∷ drop (suc r.offset) r.input
    → HeadAt r (b / 32, b % 32) (record r { offset = r.offset + 1 })
one_byte r b hb hs e =
    let form = head_short (b / 32) (b % 32) hs ∙ ap (λ k. k ∷ []) (same_byte b hb) in
    let next : suc r.offset ≡ r.offset + 1 = omega arith in
    (
      omega arith,
      omega arith,
      record {
        same_input = refl;
        moved = omega (arith, ap length form);
        spelled = rw form (rw next at e);
      },
    )

refuse_gone : (r : Reader) → get_elem? r.input r.offset ≡ none → Answers r (HeadAt r) (read_head r)
unfolding read_head
refuse_gone r gone = ground arith

reserved :
    (r : Reader) (b : ℕ)
    → ¬ (b % 32 < 24)
    → ¬ (b % 32 < 28)
    → Answers r (HeadAt r) (dispatch_head b r)
unfolding dispatch_head
reserved r b h k = ground arith

width-fits : (j : ℕ) → j ≤ 3 → 256 ^ (2 ^ j) ≤ 2 ^ 64
width-fits zero h = omega arith
width-fits (suc zero) h = omega arith
width-fits (suc (suc zero)) h = omega arith
width-fits (suc (suc (suc zero))) h = omega arith
width-fits (suc (suc (suc (suc j)))) h = absurd (omega arith)

spelled_head :
    (b j v : ℕ) (spelling : List ℕ)
    → b < 256
    → b % 32 ≡ 24 + j
    → to_be_bytes (2 ^ j) v ≡ spelling
    → (b / 32 * 32 % 256 + (24 + j)) ∷ to_be_bytes (2 ^ j) v ≡ b ∷ spelling
spelled_head b j v spelling hb info e =
    let initial : b / 32 * 32 % 256 + (24 + j) ≡ b = omega arith in rw (initial, e)

-- A head of 1 + 2^j bytes.
many_bytes :
    (r : Reader) (b j v : ℕ)
    → b < 256
    → j ≤ 3
    → b % 32 ≡ 24 + j
    → drop r.offset r.input ≡ b ∷ drop (suc r.offset) r.input
    → minimum (2 ^ j) ≤ v
    → Spelt r (2 ^ j) 0 0 v
    → HeadAt r (b / 32, v) (record r { offset = r.offset + (1 + 2 ^ j) })
many_bytes r b j v hb hj info e lo s =
    let bound : of_be 0 s.spelling < (0 + 1) * 256 ^ (2 ^ j) =
      rw s.wide at (of_be-lt 0 s.spelling s.in_range) in
    let fits : v < 256 ^ (2 ^ j) = omega (arith, s.answered) in
    let form = head_long j (b / 32) v hj lo fits ∙ spelled_head b j v s.spelling hb info written in
    (
      omega arith,
      omega (arith, width-fits j hj),
      record {
        same_input = refl;
        moved = omega (arith, ap length form, s.wide);
        spelled = rw form (e ∙ ap (◌∷◌ b) behind);
      },
    )
  where
    written : to_be_bytes (2 ^ j) v ≡ s.spelling
    written = rw (s.answered, ← s.wide) (to_be_bytes-of_be s.spelling s.in_range)

    behind : drop (suc r.offset) r.input ≡ s.spelling ++ drop (r.offset + (1 + 2 ^ j)) r.input
    behind =
        let first : r.offset + 1 + 0 ≡ suc r.offset = omega arith in
        let last : r.offset + 1 + 0 + 2 ^ j ≡ r.offset + (1 + 2 ^ j) = omega arith in
        rw (last, first) at s.front

long_answer :
    (r : Reader) (b j : ℕ)
    → AreBytes r.input
    → b < 256
    → j ≤ 3
    → b % 32 ≡ 24 + j
    → drop r.offset r.input ≡ b ∷ drop (suc r.offset) r.input
    → Answers r (HeadAt r) (read_long (b / 32) (2 ^ j) r)
unfolding read_long
long_answer r b j bytes hb hj info e = elim (Result-cases (read_argument r (2 ^ j) 0 0)) [
  | inl (v, read) ↦ elim (dec_lt v (minimum (2 ^ j))) [
    | yes lo ↦ ground arith
    | no lo ↦
        let answer = many_bytes r b j v hb hj info e (omega arith) (
          read_argument_inv (2 ^ j) r 0 0 v bytes (omega arith) (omega (arith, width-le j hj))
            read) in
        unfold minimum in rw (read_long_ok r (b / 32) (2 ^ j) v read (omega arith)) answer
  ]
  | inr (x, read) ↦ ground arith
]

-- On an input of bytes, `read_head` either answers a major type below 8 and a 64-bit argument,
-- having moved over exactly the bytes that `head` writes for the two, or refuses and leaves the
-- reader as it was.
pub read_head_answer : (r : Reader) → AreBytes r.input → Answers r (HeadAt r) (read_head r)
unfolding dispatch_head
read_head_answer r bytes = elim (Option-cases (get_elem? r.input r.offset)) [
  | inl gone ↦ refuse_gone r gone
  | inr (b, here) ↦
      let e = get_elem?→drop r.input r.offset here in
      let hb : b < 256 = All-get_elem? _ _ r.input bytes here in
      rw (read_head_at r b _ e) (elim (dec_lt (b % 32) 24) [
        | yes short ↦ rw (lt→ltb _ _ short, dispatch_head) (one_byte r b hb short e)
        | no long ↦ elim (dec_lt (b % 32) 28) [
          | yes small ↦
              let info : b % 32 ≡ 24 + (b % 32 - 24) = omega arith in
              rw (dispatch_long r b (b % 32 - 24) (omega arith) info)
                (long_answer r b (b % 32 - 24) bytes hb (omega arith) info e)
          | no big ↦ reserved r b long big
        ]
      ])
]
