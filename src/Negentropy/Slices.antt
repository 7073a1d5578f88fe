-- ===== src/Negentropy/Slices.antt =====
-- The items of one range: `items_in` of backend/wealdrelay/src/negentropy/mod.rs on items sorted by
-- sequence number.
use wealdrelay.Base.{
  ℕ, zero, suc, ◌-◌, ◌≤◌, ◌<◌, ◌≡◌, arith, List, [], ◌∷◌, ltb, take, drop, All, All-drop,
  Bool-cases, inl, inr,
}
use wealdrelay.Negentropy.Items.{Item, partition_point, items_in}

-- Sequence numbers that never fall, from `low` on.
abbrev pub SeqsFrom : ℕ → List Item → Type 0
SeqsFrom low [] = Unit {0}
SeqsFrom low (item ∷ items) = (low ≤ item.seq) × SeqsFrom item.seq items

take-SeqsFrom : (n low : ℕ) (items : List Item) → SeqsFrom low items → SeqsFrom low (take n items)
take-SeqsFrom zero low items h = tt
take-SeqsFrom (suc n) low [] h = tt
take-SeqsFrom (suc n) low (x ∷ xs) h = (h.0, take-SeqsFrom n x.seq xs h.1)

drop_below :
    (lower low : ℕ) (items : List Item)
    → SeqsFrom low items
    → SeqsFrom lower (drop (partition_point (λ item. ltb item.seq lower) items) items)
unfolding partition_point
drop_below lower low [] h = tt
drop_below lower low (x ∷ xs) h = elim (Bool-cases (ltb x.seq lower)) [
  | inl below ↦ rw below (drop_below lower x.seq xs h.1)
  | inr above ↦ rw above (ground arith, h.1)
]

take_point :
    (upper : ℕ) (items : List Item)
    → All
        (λ item. item.seq < upper)
        (take (partition_point (λ item. ltb item.seq upper) items) items)
unfolding partition_point
take_point upper [] = tt
take_point upper (x ∷ xs) = elim (Bool-cases (ltb x.seq upper)) [
  | inl below ↦ rw below (ground arith, take_point upper xs)
  | inr above ↦ rw above tt
]

All-take-drop :
    (P : Item → Type 0) (start end : ℕ) (items : List Item)
    → All P (take end items)
    → All P (take (end - start) (drop start items))
All-take-drop P zero end items h = let e : end - 0 ≡ end = omega arith in rw e h
All-take-drop P (suc start) zero items h = let e : 0 - suc start ≡ 0 = omega arith in rw e tt
All-take-drop P (suc start) (suc end) [] h =
    let e : suc end - suc start ≡ end - start = omega arith in rw e (take_none (end - start))
  where
    take_none : (n : ℕ) → All P (take n [])
    take_none zero = tt
    take_none (suc n) = tt
All-take-drop P (suc start) (suc end) (x ∷ xs) h =
    let e : suc end - suc start ≡ end - start = omega arith in
    rw e (All-take-drop P start end xs h.1)

pub All-take : (P : Item → Type 0) (n : ℕ) (items : List Item) → All P items → All P (take n items)
All-take P zero items h = tt
All-take P (suc n) [] h = tt
All-take P (suc n) (x ∷ xs) h = (h.0, All-take P n xs h.1)

-- On items sorted by sequence number, `items_in` answers items that are still sorted, none of them
-- below the lower bound and all below the upper bound.
pub items_in_lem :
    (items : List Item) (low lower upper : ℕ)
    → SeqsFrom low items
    → SeqsFrom lower (items_in items lower upper)
      × All (λ item. item.seq < upper) (items_in items lower upper)
unfolding items_in
items_in_lem items low lower upper h = (
  take-SeqsFrom _ lower _ (drop_below lower low items h),
  All-take-drop _ _ _ items (take_point upper items),
)

pub All-items_in :
    (P : Item → Type 0) (items : List Item) (lower upper : ℕ)
    → All P items
    → All P (items_in items lower upper)
unfolding items_in
All-items_in P items lower upper h = All-take P _ _ (All-drop P _ items h)
