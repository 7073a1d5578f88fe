-- ===== src/Cbor/Accept.antt =====
-- What the typed reads of backend/wealdrelay/src/cbor.rs accept, and where the cursor stands behind
-- a refusal.
use Prim.Native.String.{String}
use mathlib.Core.List.{append_assoc}
use mathlib.Core.Path.{subst, subst₂}
use wealdrelay.Base.{
  ℕ, ◌/◌, ◌≤◌, ◌≡◌, refl, ap, sym, ◌∙◌, arith, List, ◌++◌, Bool, true, false, Option, length, drop,
  take, IsU64, AreBytes, Result, Result-cases, ok, err, ltb, ◌==◌, if◌then◌else◌, drop-drop,
  take-append-drop, length-append, length-drop, length-take, Bool-cases, inl, inr, and_then, pure,
  ==_iff,
}
use wealdrelay.Cbor.Encode
use wealdrelay.Cbor.Encode.{head, null, cbor_true, cbor_false}
use wealdrelay.Cbor.Utf8.{is_utf8}
use wealdrelay.Cbor.Reader.{
  CborError, Reader, Read, read_head, expect, remaining, byte_at, mismatch, rewind,
  unsupported_simple,
}
use wealdrelay.Cbor.Typed.{
  clamp_u8, uint, slice, advance, take_bytes, bytes, bytes_of, as_boolean, boolean, take_text, text,
  read_null, optional_bytes, optional_is_null, bounded_count, array_header, array,
}
use wealdrelay.Cbor.RoundTrip.{head-first, byte_at-first}
use wealdrelay.Cbor.Canonical.{Consumed, Answers, HeadAt, read_head_answer}

-- An answer of a first step carried through a second one.
Answers-bind :
    {A B : Type 0} (r : Reader) (P : A → Reader → Type 0) (Q : B → Reader → Type 0)
    (m : Result CborError A × Reader) (f : A → Read B)
    → ((a : A) (s : Reader) → P a s → Answers r Q (f a s))
    → Answers r P m
    → Answers r Q (and_then m f)
Answers-bind r P Q (ok a, s) f next h = next a s h
Answers-bind r P Q (err e, s) f next h = h

abbrev pub UnderHead : ℕ → Reader → ℕ → Reader → Type 0
UnderHead wanted r v s = IsU64 v × Consumed r s (head wanted v)

-- Going back to where the input was entered gives the reader there.
rewound : (r s : Reader) → s.input ≡ r.input → record s { offset = r.offset } ≡ r
rewound r s e = ground arith

judge_head :
    (wanted : ℕ) (expected : String) (r : Reader) (major v : ℕ) (s : Reader)
    → HeadAt r (major, v) s
    → Answers r
        (UnderHead wanted r)
        ((if major == wanted then pure v else rewind r.offset (mismatch major expected)) s)
judge_head wanted expected r major v s h = elim (Bool-cases (major == wanted)) [
  | inl same ↦ rw same (h.1, subst (λ k. Consumed r s (head k v)) ((==_iff _ _).0 same) h.2)
  | inr other ↦ rw other (rewound r s h.2.same_input)
]

expect_answer :
    (wanted : ℕ) (expected : String) (r : Reader)
    → AreBytes r.input
    → Answers r (UnderHead wanted r) (expect wanted expected r)
unfolding expect
expect_answer wanted expected r hb =
    Answers-bind r (HeadAt r) (UnderHead wanted r) (read_head r) _
      (λ a s h. judge_head wanted expected r a.0 a.1 s h) (read_head_answer r hb)

-- On an input of bytes, `uint` either answers a 64-bit number, having moved over exactly its
-- encoding, or refuses and leaves the reader as it was.
pub uint_answer :
    (r : Reader)
    → AreBytes r.input
    → Answers r (λ v s. IsU64 v × Consumed r s (Encode.uint v)) (uint r)
unfolding uint Encode.uint
uint_answer r hb = expect_answer 0 _ r hb

-- `argument` bytes behind what was read so far.
consume_slice :
    (r s : Reader) (written : List ℕ) (n : ℕ)
    → n ≤ remaining s
    → Consumed r s written
    → (length (slice s n) ≡ n) × Consumed r (advance n s) (written ++ slice s n)
unfolding slice remaining
consume_slice r s written n h c =
    let long : length (take n (drop s.offset s.input)) ≡ n =
      omega (arith, length-take n (drop s.offset s.input), length-drop s.offset s.input) in
    (
      long,
      record {
        same_input = c.same_input;
        moved = omega (arith, c.moved, length-append written (take n (drop s.offset s.input)));
        spelled =
            c.spelled
            ∙ rw c.same_input (
                ap (◌++◌ written) (
                  sym (take-append-drop n (drop s.offset r.input))
                  ∙ ap (◌++◌ (take n (drop s.offset r.input))) (drop-drop s.offset n r.input))
                ∙ sym (append_assoc written _ _));
      },
    )

abbrev pub ByteString : Reader → List ℕ → Reader → Type 0
ByteString r value s = IsU64 (length value) × Consumed r s (Encode.bytes value)

take_bytes_answer :
    (r : Reader) (argument : ℕ) (s : Reader)
    → UnderHead 2 r argument s
    → Answers r (ByteString r) (take_bytes r.offset argument s)
unfolding take_bytes Encode.bytes
take_bytes_answer r argument s (fits, c) = elim (Bool-cases (ltb (remaining s) argument)) [
  | inl short ↦ rw short (rewound r s c.same_input)
  | inr enough ↦
      let (long, all) = consume_slice r s (head 2 argument) argument (ground arith) c in
      rw enough (rw long fits, rw long all)
]

-- On an input of bytes, `bytes` either answers a byte string of a 64-bit length, having moved over
-- exactly its encoding, or refuses and leaves the reader as it was.
pub bytes_answer : (r : Reader) → AreBytes r.input → Answers r (ByteString r) (bytes r)
unfolding bytes
bytes_answer r hb =
    Answers-bind r (UnderHead 2 r) (ByteString r) _ _ (take_bytes_answer r) (expect_answer 2 _ r hb)

pub bytes_of_answer :
    (count : ℕ) (r : Reader)
    → AreBytes r.input
    → Answers r (λ value s. (length value ≡ count) × ByteString r value s) (bytes_of count r)
unfolding bytes_of
bytes_of_answer count r hb =
    Answers-bind r (ByteString r) _ _ _
      (λ value s h. elim (Bool-cases (length value == count)) [
        | inl same ↦ rw same ((==_iff _ _).0 same, h)
        | inr other ↦ rw other (rewound r s h.1.same_input)
      ])
      (bytes_answer r hb)

abbrev pub TextString : Reader → List ℕ → Reader → Type 0
TextString r value s =
    (is_utf8 value ≡ true) × IsU64 (length value) × Consumed r s (Encode.text value)

take_text_answer :
    (r : Reader) (argument : ℕ) (s : Reader)
    → UnderHead 3 r argument s
    → Answers r (TextString r) (take_text r.offset argument s)
unfolding take_text Encode.text
take_text_answer r argument s (fits, c) = elim (Bool-cases (ltb (remaining s) argument)) [
  | inl short ↦ rw short (rewound r s c.same_input)
  | inr enough ↦
      let (long, all) = consume_slice r s (head 3 argument) argument (ground arith) c in
      elim (Bool-cases (is_utf8 (slice s argument))) [
        | inl good ↦ rw (enough, good) (good, rw long fits, rw long all)
        | inr bad ↦ rw (enough, bad) (rewound r s c.same_input)
      ]
]

-- On an input of bytes, `text` either answers a UTF-8 text of a 64-bit length, having moved over
-- exactly its encoding, or refuses and leaves the reader as it was.
pub text_answer : (r : Reader) → AreBytes r.input → Answers r (TextString r) (text r)
unfolding text
text_answer r hb =
    Answers-bind r (UnderHead 3 r) (TextString r) _ _ (take_text_answer r) (expect_answer 3 _ r hb)

abbrev pub Flag : Reader → Bool → Reader → Type 0
Flag r value s = Consumed r s (Encode.boolean value)

as_boolean_answer :
    (r : Reader) (argument : ℕ) (s : Reader)
    → UnderHead 7 r argument s
    → Answers r (Flag r) (as_boolean r.offset argument s)
unfolding as_boolean Encode.boolean head
as_boolean_answer r argument s (fits, c) = elim (Bool-cases (argument == 20)) [
  | inl e ↦ rw e (flag 20 ((==_iff _ _).0 e))
  | inr e ↦ elim (Bool-cases (argument == 21)) [
    | inl f ↦ rw (e, f) (flag 21 ((==_iff _ _).0 f))
    | inr f ↦ rw (e, f) (rewound r s c.same_input)
  ]
]
  where
    flag : (k : ℕ) → argument ≡ k → Consumed r s (head 7 k)
    flag k e = subst (λ n. Consumed r s (head 7 n)) e c

-- On an input of bytes, `boolean` either answers a flag, having moved over exactly its encoding,
-- or refuses and leaves the reader as it was.
pub boolean_answer : (r : Reader) → AreBytes r.input → Answers r (Flag r) (boolean r)
unfolding boolean head
boolean_answer r hb =
    Answers-bind r (UnderHead 7 r) (Flag r) _ _ (as_boolean_answer r) (expect_answer 7 _ r hb)

abbrev pub Count : Reader → ℕ → Reader → Type 0
Count r count s = IsU64 count × Consumed r s (head 4 count) × (count ≤ remaining s)

bounded_count_answer :
    (r : Reader) (argument : ℕ) (s : Reader)
    → UnderHead 4 r argument s
    → Answers r (Count r) (bounded_count r.offset argument s)
unfolding bounded_count
bounded_count_answer r argument s (fits, c) = elim (Bool-cases (ltb (remaining s) argument)) [
  | inl short ↦ rw short (rewound r s c.same_input)
  | inr enough ↦ rw enough (fits, c, ground arith)
]

-- On an input of bytes, `array_header` either answers a 64-bit count, having moved over exactly
-- the head of an array of that many items, with at least so many bytes left, or refuses and leaves
-- the reader as it was.
pub array_header_answer : (r : Reader) → AreBytes r.input → Answers r (Count r) (array_header r)
unfolding array_header
array_header_answer r hb =
    Answers-bind r (UnderHead 4 r) (Count r) _ _ (bounded_count_answer r) (expect_answer 4 _ r hb)

pub array_answer :
    (count : ℕ) (r : Reader)
    → AreBytes r.input
    → Answers r (λ _ s. Consumed r s (head 4 count)) (array count r)
unfolding array
array_answer count r hb =
    Answers-bind r (Count r) _ _ _
      (λ got s h. elim (Bool-cases (got == count)) [
        | inl same ↦ rw same (subst (λ n. Consumed r s (head 4 n)) ((==_iff _ _).0 same) h.1)
        | inr other ↦ rw other (rewound r s h.1.same_input)
      ])
      (array_header_answer r hb)

head_major : (r s : Reader) (m v b : ℕ) → HeadAt r (m, v) s → byte_at r r.offset ≡ ok b → m ≡ b / 32
head_major r s m v b h here =
    let (b', front, major) = head-first m v h.0 in
    ground (arith, byte_at-first r (head m v) (drop s.offset r.input) {b = b'} h.2.spelled front)

judge_null :
    (r : Reader) (b : ℕ)
    → byte_at r r.offset ≡ ok b
    → b / 32 ≡ 7
    → (m v : ℕ) (s : Reader) → HeadAt r (m, v) s
    → Answers {A = Unit {0}} r
        (λ _ s'. Consumed r s' null)
        ((if v == 22 then pure tt else rewind r.offset (unsupported_simple (clamp_u8 v))) s)
unfolding head
judge_null r b here major m v s h = elim (Bool-cases (v == 22)) [
  | inl e ↦ rw e (
      subst₂ (λ j n. Consumed r s (head j n)) (head_major r s m v b h here ∙ major)
        ((==_iff _ _).0 e) h.2)
  | inr e ↦ rw e (rewound r s h.2.same_input)
]

null_answer :
    (r : Reader) (b : ℕ)
    → AreBytes r.input
    → byte_at r r.offset ≡ ok b
    → b / 32 ≡ 7
    → Answers r (λ _ s. Consumed r s null) (read_null r)
unfolding read_null
null_answer r b hb here major =
    Answers-bind r (HeadAt r) (λ _ s. Consumed r s null) (read_head r) _
      (λ a s h. judge_null r b here major a.0 a.1 s h) (read_head_answer r hb)

abbrev pub OptionalBytes : Reader → Option (List ℕ) → Reader → Type 0
OptionalBytes r value s = Consumed r s (Encode.optional_bytes value)

-- On an input of bytes, `optional_bytes` either answers `null` or a byte string, having moved over
-- exactly its encoding, or refuses and leaves the reader as it was.
pub optional_bytes_answer :
    (r : Reader) → AreBytes r.input → Answers r (OptionalBytes r) (optional_bytes r)
unfolding optional_bytes Encode.optional_bytes
optional_bytes_answer r hb = elim (Result-cases (byte_at r r.offset)) [
  | inr (e, gone) ↦ rw gone refl
  | inl (b, here) ↦ rw here (elim (Bool-cases (b / 32 == 7)) [
    | inl simple ↦ rw simple (
        Answers-bind r (λ _ s. Consumed r s null) (OptionalBytes r) (read_null r) _ (λ _ s h. h)
          (null_answer r b hb here ((==_iff _ _).0 simple)))
    | inr other ↦ rw other (
        Answers-bind r (ByteString r) (OptionalBytes r) (bytes r) _ (λ value s h. h.1)
          (bytes_answer r hb))
  ])
]

abbrev pub NullOrNot : Reader → Bool → Reader → Type 0
NullOrNot r true s = Consumed r s null
NullOrNot r false s = s ≡ r

-- On an input of bytes, `optional_is_null` answers yes, having moved over exactly a `null`,
-- answers no and leaves the reader as it was, or refuses and leaves the reader as it was.
pub optional_is_null_answer :
    (r : Reader) → AreBytes r.input → Answers r (NullOrNot r) (optional_is_null r)
unfolding optional_is_null
optional_is_null_answer r hb = elim (Result-cases (byte_at r r.offset)) [
  | inr (e, gone) ↦ rw gone refl
  | inl (b, here) ↦ rw here (elim (Bool-cases (b / 32 == 7)) [
    | inl simple ↦ rw simple (
        Answers-bind r (λ _ s. Consumed r s null) (NullOrNot r) (read_null r) _ (λ _ s h. h)
          (null_answer r b hb here ((==_iff _ _).0 simple)))
    | inr other ↦ rw other refl
  ])
]
