-- ===== src/Negentropy/Split.antt =====
-- Dividing a range: `span_budget`, `split` and `split_bounded` of
-- backend/wealdrelay/src/negentropy/reconcile.rs. The index of the source's loop is the list of items
-- from that index on.
pub mod Cover
pub mod Ranges
use wealdrelay.Base.{
  ℕ, zero, suc, ◌+◌, ◌-◌, ◌/◌, ◌≤◌, Bool, true, false, not, Option, none, some, List, [], ◌∷◌, ◌++◌,
  ltb, leb, ◌==◌, if◌then◌else◌, length, take, drop, max, min, ◌&&◌,
}
use wealdrelay.Negentropy.Items.{ContentId, Item, ids_of, fingerprint}
use wealdrelay.Negentropy.Message.{
  Mode, skip, fingerprinted, id_list, Range, infinity, max_ranges, max_ids_per_range, split_factor,
  idlist_limit,
}

unfoldable pub span_budget : ℕ → ℕ → ℕ
span_budget built spans_remaining = max (max_ranges - built - (spans_remaining - 1)) 1

-- `usize::div_ceil`
unfoldable pub div_ceil : ℕ → ℕ → ℕ
div_ceil n d = (n + (d - 1)) / d

-- The sequence number of the last item of a chunk, `fallback` if it is empty.
unfoldable pub last_seq : ℕ → List Item → ℕ
last_seq fallback [] = fallback
last_seq fallback (item ∷ items) = last_seq item.seq items

-- The inner loop: the items that share the chunk's last sequence number, and the rest.
unfoldable pub run_of : ℕ → List Item → List Item
run_of seq [] = []
run_of seq (item ∷ items) = if item.seq == seq then item ∷ run_of seq items else []

unfoldable pub behind_run : ℕ → List Item → List Item
behind_run seq [] = []
behind_run seq (item ∷ items) = if item.seq == seq then behind_run seq items else item ∷ items

unfoldable pub chunk : ℕ → List Item → List Item
unfolding last_seq run_of
chunk bucket items =
    take bucket items ++ run_of (last_seq 0 (take bucket items)) (drop bucket items)

unfoldable pub behind_chunk : ℕ → List Item → List Item
unfolding last_seq behind_run
behind_chunk bucket items = behind_run (last_seq 0 (take bucket items)) (drop bucket items)

-- The next item's sequence number, or the upper bound of all behind the last item.
unfoldable pub bound_at : ℕ → List Item → ℕ
bound_at upper [] = upper
bound_at upper (item ∷ items) = item.seq

module _ (blake3 : List ℕ → List ℕ) where
  -- The outer loop. Each round takes an item at least, so as many rounds as items are enough.
  unfoldable pub split_loop : ℕ → ℕ → ℕ → List Item → List Range
  unfolding chunk behind_chunk bound_at fingerprint
  split_loop fuel bucket upper [] = []
  split_loop zero bucket upper (item ∷ items) = []
  split_loop (suc fuel) bucket upper (item ∷ items) =
      let rest = behind_chunk bucket (item ∷ items) in
      record {
        upper = bound_at upper rest;
        mode = fingerprinted (fingerprint blake3 (chunk bucket (item ∷ items)));
      }
      ∷ split_loop fuel bucket upper rest

  -- Ranges that could not be divided: ids in place of the one fingerprint, if they fit.
  unfoldable pub name_ids : List Item → ℕ → List Range → List Range
  unfolding ids_of
  name_ids items upper ranges =
      if (length ranges == 1)
        && (ltb idlist_limit (length items) && leb (length items) max_ids_per_range)
      then record { upper = upper; mode = id_list (ids_of items) } ∷ []
      else ranges

  unfoldable pub split_bounded : List Item → ℕ → ℕ → List Range
  unfolding div_ceil split_loop name_ids ids_of fingerprint
  split_bounded items upper budget =
      let factor = min split_factor (max budget 1) in
      if factor == 1
      then (if leb (length items) max_ids_per_range
          then record { upper = upper; mode = id_list (ids_of items) } ∷ []
          else record { upper = upper; mode = fingerprinted (fingerprint blake3 items) } ∷ [])
      else name_ids items upper
          (split_loop (length items) (max (div_ceil (length items) factor) 1) upper items)

  unfoldable pub split : List Item → ℕ → List Range
  unfolding split_bounded
  split items upper = split_bounded items upper split_factor
