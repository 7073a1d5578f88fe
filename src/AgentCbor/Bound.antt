-- ===== src/AgentCbor/Bound.antt =====
-- backend/weald-mls/src/agent_cbor.rs: how far the walk over an item goes.
use wealdrelay.Base.{
  ℕ, zero, suc, ◌+◌, ◌-◌, ◌*◌, ◌/◌, ◌%◌, ◌^◌, ◌≤◌, ◌≡◌, refl, ap, ◌∙◌, arith, true, false, List, [],
  ◌∷◌, length, drop, ltb, ◌==◌, ◌||◌, length-drop, drop-drop, Result, ok, err, if◌then◌else◌,
  Bool-cases, inl, inr,
}
use wealdrelay.AgentCbor.{
  CborError, Head, Skipped, wide, head, skip_then, skip_items, skip_string, skip_head, skip_on,
  skip, skip_item, max_skip_depth,
}

-- The walk looks at no more items than there are bytes, and one more where it fails; and what it
-- leaves is the end of what it was given.
pub record Walks (xs : List ℕ) (s : Skipped) : Type 0 where
  pub few : s.0 ≤ length xs + 1
  pub consumes : (rest : List ℕ) → s.1 ≡ ok rest → s.0 + length rest ≤ length xs
  pub leaves : (rest : List ℕ) → s.1 ≡ ok rest → (k : ℕ) × (rest ≡ drop k xs)

wide-next :
    (major width : ℕ) (rest : List ℕ) (h : Head)
    → wide major width rest ≡ ok h
    → (width ≤ length rest) × (h.next ≡ drop width rest)
unfolding wide
wide-next major width rest h e = ground arith

narrow-next :
    (x : ℕ) (xs : List ℕ) (h : Head) → ltb (x % 32) 24 ≡ true → head (x ∷ xs) ≡ ok h → h.next ≡ xs
unfolding head
narrow-next x xs h b e = ground arith

wide_head :
    (x : ℕ) (xs : List ℕ) (h : Head)
    → ltb (x % 32) 24 ≡ false
    → head (x ∷ xs) ≡ ok h
    → wide (x / 32) (2 ^ (x % 32 - 24)) xs ≡ ok h
unfolding head
wide_head x xs h b e = ground arith

head-next :
    (xs : List ℕ) (h : Head)
    → head xs ≡ ok h
    → (length h.next + 1 ≤ length xs) × ((k : ℕ) × (h.next ≡ drop k xs))
head-next [] h e = unfold head in cc
head-next (x ∷ xs) h e = elim (Bool-cases (ltb (x % 32) 24)) [
  | inl b ↦ let is = narrow-next x xs h b e in (omega (arith, ap (λ ys. length ys) is), (1, is))
  | inr b ↦
      let width = 2 ^ (x % 32 - 24) in
      let (fits, is) = wide-next (x / 32) width xs h (wide_head x xs h b e) in
      (omega (arith, ap (λ ys. length ys) is, length-drop width xs), (suc width, is))
]

-- A step on the end of what another step left.
compose :
    {A : Type 0} (xs : List A) (j k : ℕ) {ys zs : List A}
    → ys ≡ drop j xs
    → zs ≡ drop k ys
    → zs ≡ drop (j + k) xs
compose xs j k p q = q ∙ (ap (λ us. drop k us) p ∙ drop-drop j k xs)

done : (xs : List ℕ) → Walks xs (0, ok xs)
done xs = record {
  few = omega arith;
  consumes = λ rest e. ground arith;
  leaves = λ rest e. (0, ground arith);
}

fails : (xs : List ℕ) (e : CborError) → Walks xs (0, err e)
fails xs e = record {
  few = omega arith;
  consumes = λ rest h. ground arith;
  leaves = λ rest h. ground arith;
}

skip_then-Walks :
    (xs : List ℕ) (s : Skipped) (k : List ℕ → Skipped)
    → Walks xs s
    → ((rest : List ℕ) → Walks rest (k rest))
    → Walks xs (skip_then s k)
unfolding skip_then
skip_then-Walks xs (n, err e) k h f = record {
  few = h.few;
  consumes = λ rest p. ground arith;
  leaves = λ rest p. ground arith;
}
skip_then-Walks xs (n, ok mid) k h f =
    let first = h.consumes mid refl in
    let (j, at) = h.leaves mid refl in
    let then_ = f mid in
    record {
      few = omega (arith, first, then_.few);
      consumes = λ rest p. omega (arith, first, then_.consumes rest p);
      leaves = λ rest p. let (i, behind) = then_.leaves rest p in (j + i, compose xs j i at behind);
    }

skip_items-Walks :
    (item : List ℕ → Skipped) (n : ℕ) (xs : List ℕ)
    → ((ys : List ℕ) → Walks ys (item ys))
    → Walks xs (skip_items item n xs)
unfolding skip_items
skip_items-Walks item zero xs h = done xs
skip_items-Walks item (suc n) xs h =
    skip_then-Walks xs (item xs) (skip_items item n) (h xs) (λ rest. skip_items-Walks item n rest h)

-- A walk that starts behind a head.
behind :
    (xs ys : List ℕ) (j : ℕ) (s : Skipped)
    → length ys + 1 ≤ length xs
    → ys ≡ drop j xs
    → Walks ys s
    → Walks xs (1 + s.0, s.1)
behind xs ys j s less at h = record {
  few = omega (arith, less, h.few);
  consumes = λ rest p. omega (arith, less, h.consumes rest p);
  leaves = λ rest p. let (i, b) = h.leaves rest p in (j + i, compose xs j i at b);
}

string-Walks : (h : Head) → Walks h.next (0, skip_string h)
unfolding skip_string
string-Walks h = elim (Bool-cases (ltb (length h.next) h.argument)) [
  | inl b ↦ rw b (fails h.next _)
  | inr b ↦ rw b (record {
    few = omega arith;
    consumes = λ rest p. ground (arith, length-drop h.argument h.next);
    leaves = λ rest p. (h.argument, ground arith);
  })
]

null-Walks :
    (h : Head) (e : CborError) → Walks h.next (0, if h.argument == 22 then ok h.next else err e)
null-Walks h e = elim (Bool-cases (h.argument == 22)) [
  | inl b ↦ rw b (done h.next)
  | inr b ↦ rw b (fails h.next e)
]

skip_head-Walks :
    (item : List ℕ → Skipped) (h : Head)
    → ((ys : List ℕ) → Walks ys (item ys))
    → Walks h.next (skip_head item h)
unfolding skip_head
skip_head-Walks item h f = elim (Bool-cases (h.major == 0)) [
  | inl a ↦ rw a (done h.next)
  | inr a ↦ elim (Bool-cases ((h.major == 2) || (h.major == 3))) [
    | inl b ↦ rw (a, b) (string-Walks h)
    | inr b ↦ elim (Bool-cases (h.major == 4)) [
      | inl c ↦ rw (a, b, c) (skip_items-Walks item h.argument h.next f)
      | inr c ↦ elim (Bool-cases (h.major == 5)) [
        | inl d ↦ rw (a, b, c, d) (skip_items-Walks item (2 * h.argument) h.next f)
        | inr d ↦ elim (Bool-cases (h.major == 7)) [
          | inl e ↦ rw (a, b, c, d, e) (null-Walks h _)
          | inr e ↦ rw (a, b, c, d, e) (fails h.next _)
        ]
      ]
    ]
  ]
]

skip_on-Walks :
    (item : List ℕ → Skipped) (xs : List ℕ) (r : Result CborError Head)
    → head xs ≡ r
    → ((ys : List ℕ) → Walks ys (item ys))
    → Walks xs (let (n, out) = skip_on item r in (1 + n, out))
unfolding skip_on
skip_on-Walks item xs (ok h) e f =
    let (less, (j, at)) = head-next xs h e in
    behind xs h.next j (skip_head item h) less at (skip_head-Walks item h f)
skip_on-Walks item xs (err x) e f = record {
  few = omega arith;
  consumes = λ rest p. ground arith;
  leaves = λ rest p. ground arith;
}

skip-Walks : (levels : ℕ) (xs : List ℕ) → Walks xs (skip levels xs)
unfolding skip
skip-Walks zero xs = record {
  few = omega arith;
  consumes = λ rest p. ground arith;
  leaves = λ rest p. ground arith;
}
skip-Walks (suc levels) xs = skip_on-Walks (skip levels) xs (head xs) refl (skip-Walks levels)

-- The walk over an item of any input looks at no more items than the input has bytes, and one more
-- at most where it fails, whatever counts the input claims; where it succeeds, the items looked at
-- and the bytes left add up to no more than the input, and what is left is an end of the input.
pub skip_item-Walks : (xs : List ℕ) → Walks xs (skip_item xs)
unfolding skip_item
skip_item-Walks xs = skip-Walks (max_skip_depth + 1) xs
