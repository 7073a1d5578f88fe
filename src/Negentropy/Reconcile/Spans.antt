-- ===== src/Negentropy/Reconcile/Spans.antt =====
-- What either role of backend/wealdrelay/src/negentropy/reconcile.rs answers one span with.
use wealdrelay.Base.{
  ℕ, ◌≤◌, ◌<◌, ◌≡◌, refl, arith, false, Option, none, some, List, [], ◌∷◌, leb, length, max, All,
  IsU64, bytes_eq, Bool-cases, inl, inr,
}
use wealdrelay.Negentropy.Items.{Item, ids_of, fingerprint, set_of, is_subset}
use wealdrelay.Negentropy.Slices.{SeqsFrom}
use wealdrelay.Negentropy.Message.{
  Mode, skip, fingerprinted, id_list, Range, max_ids_per_range, idlist_limit, is_not_above,
}
use wealdrelay.Negentropy.Message.Valid.{IsMode, IsRange, Reaches}
use wealdrelay.Negentropy.Split.{split_bounded}
use wealdrelay.Negentropy.Split.Cover.{split_bounded-Covers}
use wealdrelay.Negentropy.Split.Ranges.{HaveIds, ids_of-IsMode, split_bounded-IsRange}
use wealdrelay.Negentropy.Reconcile.{narrow, answer_span, is_settled_for, advance_span}

-- Where the range behind a bound begins.
abbrev pub start : Option ℕ → ℕ
start none = 0
start (some low) = low

-- Ranges that may stand for the span from `previous` to `upper`.
pub record Covered (previous : Option ℕ) (upper budget : ℕ) (ranges : List Range) : Type 0 where
  pub reaches : Reaches previous upper ranges
  pub few : length ranges ≤ max budget 1
  pub each : All IsRange ranges

-- The items of a span.
pub record InSpan (previous : Option ℕ) (upper : ℕ) (mine : List Item) : Type 0 where
  pub fits : IsU64 upper
  pub above : is_not_above previous upper ≡ false
  pub sorted : SeqsFrom (start previous) mine
  pub below : All (λ item. item.seq < upper) mine
  pub ids : HaveIds mine

one-Covered :
    (previous : Option ℕ) (upper budget : ℕ) (mode : Mode)
    → IsU64 upper
    → is_not_above previous upper ≡ false
    → IsMode mode
    → Covered previous upper budget (record { upper = upper; mode = mode } ∷ [])
one-Covered previous upper budget mode h a m = record {
  reaches = (a, refl);
  few = omega arith;
  each = ((h, m), tt);
}

from_none :
    (low end : ℕ) (ranges : List Range)
    → low < end
    → Reaches (some low) end ranges
    → Reaches none end ranges
from_none low end [] lt h = ground (arith, lt, h)
from_none low end (r ∷ rs) lt h = (refl, h.1)

module _ (blake3 : List ℕ → List ℕ) (digest : (xs : List ℕ) → length (blake3 xs) ≡ 32) where
  split-Covered :
      (previous : Option ℕ) (upper budget : ℕ) (mine : List Item)
      → 1 ≤ length mine
      → InSpan previous upper mine
      → Covered previous upper budget (split_bounded blake3 mine upper budget)
  split-Covered previous upper budget [] n s = ground (arith, n)
  split-Covered none upper budget (x ∷ xs) n s =
      let lt : 0 < upper = omega (arith, s.below.0) in
      let c = split_bounded-Covers blake3 budget 0 upper x xs lt s.sorted s.below in
      record {
        reaches = from_none 0 upper _ lt c.0;
        few = c.1;
        each = split_bounded-IsRange blake3 digest budget upper (x ∷ xs) s.fits s.ids s.below;
      }
  split-Covered (some low) upper budget (x ∷ xs) n s =
      let lt : low < upper = ground (arith, s.above) in
      let c = split_bounded-Covers blake3 budget low upper x xs lt s.sorted s.below in
      record {
        reaches = c.0;
        few = c.1;
        each = split_bounded-IsRange blake3 digest budget upper (x ∷ xs) s.fits s.ids s.below;
      }

  narrow-Covered :
      (previous : Option ℕ) (upper budget : ℕ) (mine : List Item)
      → InSpan previous upper mine
      → Covered previous upper budget (narrow blake3 mine upper budget)
  unfolding narrow
  narrow-Covered previous upper budget mine s = elim (Bool-cases (leb (length mine) idlist_limit)) [
    | inl few ↦
        let small : length mine ≤ max_ids_per_range = ground (arith, few) in
        rw few (
          one-Covered previous upper budget (id_list (ids_of mine)) s.fits s.above
            (ids_of-IsMode mine s.ids small))
    | inr many ↦
        let some_of_them : 1 ≤ length mine = ground (arith, many) in
        rw many (split-Covered previous upper budget mine some_of_them s)
  ]

  pub answer_span-Covered :
      (previous : Option ℕ) (upper budget : ℕ) (mine : List Item) (mode : Mode)
      → InSpan previous upper mine
      → Covered previous upper budget (answer_span blake3 mine upper mode budget)
  unfolding answer_span
  answer_span-Covered previous upper budget mine skip s =
      one-Covered previous upper budget skip s.fits s.above tt
  answer_span-Covered previous upper budget mine (fingerprinted theirs) s =
      elim (Bool-cases (bytes_eq (fingerprint blake3 mine) theirs)) [
        | inl same ↦ rw same (one-Covered previous upper budget skip s.fits s.above tt)
        | inr other ↦ rw other (narrow-Covered previous upper budget mine s)
      ]
  answer_span-Covered previous upper budget mine (id_list theirs) s =
      elim (Bool-cases (is_subset (set_of theirs) (set_of (ids_of mine)))) [
        | inl same ↦ rw same (one-Covered previous upper budget skip s.fits s.above tt)
        | inr other ↦ rw other (narrow-Covered previous upper budget mine s)
      ]

  pub advance_span-Covered :
      (previous : Option ℕ) (upper budget : ℕ) (mine : List Item) (mode : Mode)
      → InSpan previous upper mine
      → Covered previous upper budget (advance_span blake3 mine upper mode budget)
  unfolding advance_span
  advance_span-Covered previous upper budget mine mode s =
      elim (Bool-cases (is_settled_for blake3 mine mode)) [
        | inl same ↦ rw same (one-Covered previous upper budget skip s.fits s.above tt)
        | inr other ↦ rw other (narrow-Covered previous upper budget mine s)
      ]
