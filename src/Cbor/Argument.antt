-- ===== src/Cbor/Argument.antt =====
-- The loop of `read_head` in backend/wealdrelay/src/cbor.rs: what it reads and where it stops.
use native.Mathlib.Nat.{pow-suc}
use wealdrelay.Base.{
  ℕ, zero, suc, ◌+◌, ◌*◌, ◌^◌, ◌≤◌, ◌<◌, ◌≡◌, refl, ap, sym, ◌∙◌, some, none, arith, List, [], ◌∷◌,
  ◌++◌, length, drop, get_elem?, AreBytes, of_be, drop→get_elem?, get_elem?→drop, All-get_elem?,
  ◌≢◌, Option-cases, inl, inr, ok,
}
use wealdrelay.Cbor.Reader.{Reader, read_argument}

-- Fewer than eight bytes shift left without loss.
shift_fits : (index value : ℕ) → index ≤ 7 → value < 256 ^ index → value * 256 < 2 ^ 64
shift_fits zero v h k = omega arith
shift_fits (suc zero) v h k = omega arith
shift_fits (suc (suc zero)) v h k = omega arith
shift_fits (suc (suc (suc zero))) v h k = omega arith
shift_fits (suc (suc (suc (suc zero)))) v h k = omega arith
shift_fits (suc (suc (suc (suc (suc zero))))) v h k = omega arith
shift_fits (suc (suc (suc (suc (suc (suc zero)))))) v h k = omega arith
shift_fits (suc (suc (suc (suc (suc (suc (suc zero))))))) v h k = omega arith
shift_fits (suc (suc (suc (suc (suc (suc (suc (suc n)))))))) v h k = absurd (omega arith)

-- One round of the loop, on a byte that is there.
round :
    (r : Reader) (n index value b : ℕ)
    → index ≤ 7
    → value < 256 ^ index
    → get_elem? r.input (r.offset + 1 + index) ≡ some b
    → read_argument r (suc n) index value ≡ read_argument r n (index + 1) (value * 256 + b)
unfolding read_argument
round r n index value b hi hv e = ground (arith, shift_fits index value)

next_fits :
    (index value b : ℕ) → value < 256 ^ index → b < 256 → value * 256 + b < 256 ^ (index + 1)
next_fits index value b h hb =
    let e : index + 1 ≡ suc index = omega arith in rw e (omega (arith, pow-suc 256 index))

pub read_argument_ok :
    (bs post : List ℕ) (r : Reader) (index value : ℕ)
    → AreBytes bs
    → value < 256 ^ index
    → index + length bs ≤ 8
    → drop (r.offset + 1 + index) r.input ≡ bs ++ post
    → read_argument r (length bs) index value ≡ ok (of_be value bs)
unfolding of_be
read_argument_ok [] post r index value hb hv hi e = unfold read_argument in refl
read_argument_ok (b ∷ bs) post r index value (hb, hbs) hv hi e =
    let (here, rest) = drop→get_elem? r.input (r.offset + 1 + index) e in
    let s : r.offset + 1 + (index + 1) ≡ suc (r.offset + 1 + index) = omega arith in
    round r (length bs) index value b (omega arith) hv here
    ∙ read_argument_ok bs post r (index + 1) (value * 256 + b) hbs (next_fits index value b hv hb)
        (omega arith) (ap (λ k. drop k r.input) s ∙ rest)

-- What a successful loop has read: `n` bytes of the input, and their value.
pub record Spelt (r : Reader) (n index value answer : ℕ) : Type 0 where
  pub spelling : List ℕ
  pub wide : length spelling ≡ n
  pub in_range : AreBytes spelling
  pub front :
      drop (r.offset + 1 + index) r.input ≡ spelling ++ drop (r.offset + 1 + index + n) r.input
  pub answered : answer ≡ of_be value spelling

no_byte :
    (r : Reader) (n index value answer : ℕ)
    → get_elem? r.input (r.offset + 1 + index) ≡ none
    → read_argument r (suc n) index value ≢ ok answer
unfolding read_argument
no_byte r n index value answer gone e = ground arith

one_more :
    (r : Reader) (n index value answer b : ℕ)
    → b < 256
    → get_elem? r.input (r.offset + 1 + index) ≡ some b
    → Spelt r n (index + 1) (value * 256 + b) answer
    → Spelt r (suc n) index value answer
unfolding of_be
one_more r n index value answer b hb here s =
    let next : r.offset + 1 + (index + 1) ≡ suc (r.offset + 1 + index) = omega arith in
    let last : r.offset + 1 + (index + 1) + n ≡ r.offset + 1 + index + suc n = omega arith in
    record {
      spelling = b ∷ s.spelling;
      wide = ap suc s.wide;
      in_range = (hb, s.in_range);
      front = get_elem?→drop r.input _ here ∙ ap (◌∷◌ b) (rw (last, next) at s.front);
      answered = s.answered;
    }

pub read_argument_inv :
    (n : ℕ) (r : Reader) (index value answer : ℕ)
    → AreBytes r.input
    → value < 256 ^ index
    → index + n ≤ 8
    → read_argument r n index value ≡ ok answer
    → Spelt r n index value answer
unfolding of_be
read_argument_inv zero r index value answer hb hv hi e =
    let s : r.offset + 1 + index + 0 ≡ r.offset + 1 + index = omega arith in
    record {
      spelling = [];
      wide = refl;
      in_range = tt;
      front = ap (λ k. drop k r.input) (sym s);
      answered = unfold read_argument in cc (e);
    }
read_argument_inv (suc n) r index value answer hb hv hi e =
    elim (Option-cases (get_elem? r.input (r.offset + 1 + index))) [
      | inl gone ↦ absurd (no_byte r n index value answer gone e)
      | inr (b, here) ↦
          let hb' : b < 256 = All-get_elem? _ _ r.input hb here in
          let hv' = next_fits index value b hv hb' in
          let e' = sym (round r n index value b (omega arith) hv here) ∙ e in
          one_more r n index value answer b hb' here
            (read_argument_inv n r (index + 1) (value * 256 + b) answer hb hv' (omega arith) e')
    ]
