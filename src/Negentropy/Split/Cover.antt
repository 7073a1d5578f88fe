-- ===== src/Negentropy/Split/Cover.antt =====
-- Divided ranges in backend/wealdrelay/src/negentropy/reconcile.rs: their upper bounds and their
-- number.
use mathlib.Core.Path.{subst}
use wealdrelay.Base.{
  ℕ, zero, suc, ◌+◌, ◌-◌, ◌*◌, ◌≤◌, ◌<◌, ◌≡◌, refl, arith, false, some, List, [], ◌∷◌, ◌&&◌, ltb,
  leb, ◌==◌, length, take, drop, min, max, All, All-drop, length-drop, Bool-cases, inl, inr,
}
use wealdrelay.Negentropy.Items.{Item, ids_of, fingerprint}
use wealdrelay.Negentropy.Slices.{SeqsFrom}
use wealdrelay.Negentropy.Message.{
  Mode, fingerprinted, id_list, Range, max_ids_per_range, idlist_limit, is_not_above,
}
use wealdrelay.Negentropy.Message.Valid.{Reaches}
use wealdrelay.Negentropy.Split.{
  div_ceil, last_seq, behind_run, behind_chunk, bound_at, split_loop, name_ids, split_bounded,
}

-- Items behind the sequence number `s`: the first of them is above it.
abbrev Behind : ℕ → List Item → Type 0
Behind s [] = Unit {0}
Behind s (y ∷ ys) = (s < y.seq) × SeqsFrom y.seq ys

behind_run-Behind : (s : ℕ) (xs : List Item) → SeqsFrom s xs → Behind s (behind_run s xs)
unfolding behind_run
behind_run-Behind s [] h = tt
behind_run-Behind s (x ∷ xs) h = elim (Bool-cases (x.seq == s)) [
  | inl same ↦ let e : x.seq ≡ s = ground arith in rw same (behind_run-Behind s xs (from e h.1))
  | inr other ↦ rw other (ground arith, h.1)
]
  where
    from : x.seq ≡ s → SeqsFrom x.seq xs → SeqsFrom s xs
    from e k = subst (λ n. SeqsFrom n xs) e k

-- Where a chunk of sorted items stops, the rest goes on.
last_seq-SeqsFrom :
    (n s : ℕ) (xs : List Item)
    → SeqsFrom s xs
    → (s ≤ last_seq s (take n xs)) × SeqsFrom (last_seq s (take n xs)) (drop n xs)
unfolding last_seq
last_seq-SeqsFrom zero s xs h = (omega arith, h)
last_seq-SeqsFrom (suc n) s [] h = (omega arith, tt)
last_seq-SeqsFrom (suc n) s (x ∷ xs) h =
    let (le, rest) = last_seq-SeqsFrom n x.seq xs h.1 in (omega (arith, h.0, le), rest)

Behind-mono : (s t : ℕ) (xs : List Item) → s ≤ t → Behind t xs → Behind s xs
Behind-mono s t [] h b = tt
Behind-mono s t (x ∷ xs) h b = (omega (arith, h, b.0), b.1)

behind_chunk-Behind :
    (bucket low : ℕ) (x : Item) (xs : List Item)
    → SeqsFrom low (x ∷ xs)
    → Behind low (behind_chunk (suc bucket) (x ∷ xs))
unfolding behind_chunk last_seq
behind_chunk-Behind bucket low x xs h =
    let (le, rest) = last_seq-SeqsFrom bucket x.seq xs h.1 in
    Behind-mono low (last_seq x.seq (take bucket xs)) _ (omega (arith, h.0, le))
      (behind_run-Behind _ (drop bucket xs) rest)

length-behind_run : (s : ℕ) (xs : List Item) → length (behind_run s xs) ≤ length xs
unfolding behind_run
length-behind_run s [] = omega arith
length-behind_run s (x ∷ xs) = ground (arith, length-behind_run s xs)

-- A chunk takes a bucket of items at least.
length-behind_chunk :
    (bucket : ℕ) (xs : List Item) → length (behind_chunk bucket xs) ≤ length xs - bucket
unfolding behind_chunk
length-behind_chunk bucket xs =
    omega (
      arith,
      length-behind_run (last_seq 0 (take bucket xs)) (drop bucket xs),
      length-drop bucket xs,
    )

All-behind_run : (P : Item → Type 0) (s : ℕ) (xs : List Item) → All P xs → All P (behind_run s xs)
unfolding behind_run
All-behind_run P s [] h = tt
All-behind_run P s (x ∷ xs) h = elim (Bool-cases (x.seq == s)) [
  | inl same ↦ rw same (All-behind_run P s xs h.1)
  | inr other ↦ rw other h
]

pub All-behind_chunk :
    (P : Item → Type 0) (bucket : ℕ) (xs : List Item) → All P xs → All P (behind_chunk bucket xs)
unfolding behind_chunk
All-behind_chunk P bucket xs h = All-behind_run P _ _ (All-drop P bucket xs h)

-- The upper bound of a chunk of items from `low` on, all below `upper`.
bound_at-above :
    (low upper : ℕ) (rest : List Item) → low < upper → Behind low rest → low < bound_at upper rest
unfolding bound_at
bound_at-above low upper [] lt b = lt
bound_at-above low upper (y ∷ ys) lt b = b.0

pub bound_at-le :
    (upper : ℕ) (rest : List Item)
    → All (λ item. item.seq < upper) rest
    → bound_at upper rest ≤ upper
unfolding bound_at
bound_at-le upper [] h = omega arith
bound_at-le upper (y ∷ ys) h = omega (arith, h.0)

-- As many buckets as the divisor are enough.
div_ceil_covers : (n d : ℕ) → 2 ≤ d → d ≤ 8 → n ≤ d * max (div_ceil n d) 1
unfolding div_ceil
div_ceil_covers n zero h k = omega (arith, h)
div_ceil_covers n (suc zero) h k = omega (arith, h)
div_ceil_covers n (suc (suc zero)) h k = omega arith
div_ceil_covers n (suc (suc (suc zero))) h k = omega arith
div_ceil_covers n (suc (suc (suc (suc zero)))) h k = omega arith
div_ceil_covers n (suc (suc (suc (suc (suc zero))))) h k = omega arith
div_ceil_covers n (suc (suc (suc (suc (suc (suc zero)))))) h k = omega arith
div_ceil_covers n (suc (suc (suc (suc (suc (suc (suc zero))))))) h k = omega arith
div_ceil_covers n (suc (suc (suc (suc (suc (suc (suc (suc zero)))))))) h k = omega arith
div_ceil_covers n (suc (suc (suc (suc (suc (suc (suc (suc (suc d))))))))) h k = omega (arith, k)

module _ (blake3 : List ℕ → List ℕ) where
  -- The loop covers from `low` to `upper`.
  split_loop-Reaches :
      (fuel bucket low upper : ℕ) (x : Item) (xs : List Item)
      → length xs < fuel
      → low < upper
      → SeqsFrom low (x ∷ xs)
      → All (λ item. item.seq < upper) (x ∷ xs)
      → Reaches (some low) upper (split_loop blake3 fuel (suc bucket) upper (x ∷ xs))
  unfolding split_loop bound_at
  split_loop-Reaches zero bucket low upper x xs enough lt h k = ground (arith, enough)
  split_loop-Reaches (suc fuel) bucket low upper x xs enough lt h k =
      next
        (λ y ys few a from.
          split_loop-Reaches fuel bucket y.seq upper y ys few a.0 (omega arith, from) a)
        (behind_chunk (suc bucket) (x ∷ xs))
        (omega (arith, enough, length-behind_chunk (suc bucket) (x ∷ xs)))
        (behind_chunk-Behind bucket low x xs h)
        (All-behind_chunk (λ item. item.seq < upper) (suc bucket) (x ∷ xs) k)
    where
      next :
          (ih : (y : Item) (ys : List Item)
            → length ys < fuel
            → All (λ item. item.seq < upper) (y ∷ ys)
            → SeqsFrom y.seq ys
            → Reaches (some y.seq) upper (split_loop blake3 fuel (suc bucket) upper (y ∷ ys)))
          (rest : List Item)
          → length rest ≤ fuel
          → Behind low rest
          → All (λ item. item.seq < upper) rest
          → (is_not_above (some low) (bound_at upper rest) ≡ false)
            × Reaches
                (some (bound_at upper rest))
                upper
                (split_loop blake3 fuel (suc bucket) upper rest)
      next ih [] few b a = (ground arith, refl)
      next ih (y ∷ ys) few b a = (ground (arith, b.0), ih y ys (omega (arith, few)) a b.1)

  -- With `n` buckets' worth of items there are `n` ranges at most.
  length-split_loop :
      (n fuel bucket upper : ℕ) (items : List Item)
      → length items ≤ n * suc bucket
      → length (split_loop blake3 fuel (suc bucket) upper items) ≤ n
  unfolding split_loop
  length-split_loop n fuel bucket upper [] h = omega arith
  length-split_loop n zero bucket upper (x ∷ xs) h = omega arith
  length-split_loop zero (suc fuel) bucket upper (x ∷ xs) h = omega (arith, h)
  length-split_loop (suc n) (suc fuel) bucket upper (x ∷ xs) h =
      let rest = behind_chunk (suc bucket) (x ∷ xs) in
      let e : suc n * suc bucket ≡ n * suc bucket + suc bucket = omega arith in
      omega (
        arith,
        length-split_loop n fuel bucket upper rest
            (omega (arith, h, e, length-behind_chunk (suc bucket) (x ∷ xs))),
      )

  -- Ranges from `low` to `upper`, `n` at most.
  abbrev Covers : ℕ → ℕ → ℕ → List Range → Type 0
  Covers n low upper ranges = Reaches (some low) upper ranges × (length ranges ≤ n)

  one-Covers :
      (n low upper : ℕ) (mode : Mode)
      → 1 ≤ n
      → low < upper
      → Covers n low upper (record { upper = upper; mode = mode } ∷ [])
  one-Covers n low upper mode h lt = ((ground arith, refl), h)

  name_ids-Covers :
      (n low upper : ℕ) (items : List Item) (ranges : List Range)
      → 1 ≤ n
      → low < upper
      → Covers n low upper ranges
      → Covers n low upper (name_ids blake3 items upper ranges)
  unfolding name_ids
  name_ids-Covers n low upper items ranges h lt c =
      elim (Bool-cases (
        (length ranges == 1)
        && (ltb idlist_limit (length items) && leb (length items) max_ids_per_range))) [
          | inl fit ↦ rw fit (one-Covers n low upper (id_list (ids_of items)) h lt)
          | inr unfit ↦ rw unfit c
        ]

  split_loop-Covers :
      (factor bucket low upper : ℕ) (x : Item) (xs : List Item)
      → 1 ≤ bucket
      → length (x ∷ xs) ≤ factor * bucket
      → low < upper
      → SeqsFrom low (x ∷ xs)
      → All (λ item. item.seq < upper) (x ∷ xs)
      → Covers factor low upper (split_loop blake3 (length (x ∷ xs)) bucket upper (x ∷ xs))
  split_loop-Covers factor zero low upper x xs b h lt s a = ground (arith, b)
  split_loop-Covers factor (suc bucket) low upper x xs b h lt s a = (
    split_loop-Reaches (length (x ∷ xs)) bucket low upper x xs (omega arith) lt s a,
    length-split_loop factor (length (x ∷ xs)) bucket upper (x ∷ xs) h,
  )

  -- Dividing a non-empty list of items sorted by sequence number, none below `low` and all below
  -- an upper bound above `low`, gives ranges whose upper bounds rise strictly from `low` to that
  -- bound, and no more ranges than the budget, or one where the budget is 0.
  pub split_bounded-Covers :
      (budget low upper : ℕ) (x : Item) (xs : List Item)
      → low < upper
      → SeqsFrom low (x ∷ xs)
      → All (λ item. item.seq < upper) (x ∷ xs)
      → Reaches (some low) upper (split_bounded blake3 (x ∷ xs) upper budget)
        × (length (split_bounded blake3 (x ∷ xs) upper budget) ≤ max budget 1)
  unfolding split_bounded
  split_bounded-Covers budget low upper x xs lt s a =
      let items = x ∷ xs in
      let factor = min 8 (max budget 1) in
      let bucket = max (div_ceil (length items) factor) 1 in
      elim (Bool-cases (factor == 1)) [
        | inl whole ↦ rw whole (elim (Bool-cases (leb (length items) max_ids_per_range)) [
          | inl fit ↦
              rw fit (one-Covers (max budget 1) low upper (id_list (ids_of items)) (omega arith) lt)
          | inr unfit ↦ rw unfit (
              one-Covers (max budget 1) low upper (fingerprinted (fingerprint blake3 items))
                (omega arith) lt)
        ])
        | inr divided ↦
            let more : 2 ≤ factor = ground arith in
            let c =
              split_loop-Covers factor bucket low upper x xs (omega arith)
                (div_ceil_covers (length items) factor more (omega arith)) lt s a in
            rw divided (
              name_ids-Covers (max budget 1) low upper items
                (split_loop blake3 (length items) bucket upper items) (omega arith) lt
                (c.0, omega (arith, c.1)))
      ]
