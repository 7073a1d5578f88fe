-- ===== src/Negentropy/Split/Ranges.antt =====
-- Divided ranges in backend/wealdrelay/src/negentropy/reconcile.rs: what each of them holds.
use wealdrelay.Base.{
  ℕ, zero, suc, ◌≤◌, ◌<◌, ◌≡◌, arith, List, [], ◌∷◌, ◌&&◌, ltb, leb, ◌==◌, length, max, min, All,
  IsU64, Bool-cases, inl, inr,
}
use wealdrelay.Negentropy.Items.{Item, ids_of, fingerprint}
use wealdrelay.Negentropy.Ids.{ids_of-Ascends, length-ids_of, All-ids_of}
use wealdrelay.Negentropy.Message.{id_list, Range, max_ids_per_range, idlist_limit}
use wealdrelay.Negentropy.Message.Valid.{IsId, IsMode, IsRange}
use wealdrelay.Negentropy.Split.{behind_chunk, chunk, split_loop, name_ids, split_bounded, div_ceil}
use wealdrelay.Negentropy.Split.Cover.{All-behind_chunk, bound_at-le}

abbrev pub HaveIds : List Item → Type 0
HaveIds items = All (λ item. IsId item.id) items

pub ids_of-IsMode :
    (items : List Item)
    → HaveIds items
    → length items ≤ max_ids_per_range
    → IsMode (id_list (ids_of items))
ids_of-IsMode items h few =
    (omega (arith, length-ids_of items, few), All-ids_of IsId items h, ids_of-Ascends items)

module _ (blake3 : List ℕ → List ℕ) (digest : (xs : List ℕ) → length (blake3 xs) ≡ 32) where
  pub fingerprint-IsId : (items : List Item) → IsId (fingerprint blake3 items)
  unfolding fingerprint
  fingerprint-IsId items = digest _

  split_loop-IsRange :
      (fuel bucket upper : ℕ) (items : List Item)
      → IsU64 upper
      → All (λ item. item.seq < upper) items
      → All IsRange (split_loop blake3 fuel bucket upper items)
  unfolding split_loop
  split_loop-IsRange fuel bucket upper [] h k = tt
  split_loop-IsRange zero bucket upper (x ∷ xs) h k = tt
  split_loop-IsRange (suc fuel) bucket upper (x ∷ xs) h k =
      let rest = behind_chunk bucket (x ∷ xs) in
      let below = All-behind_chunk (λ item. item.seq < upper) bucket (x ∷ xs) k in
      (
        (omega (arith, h, bound_at-le upper rest below), fingerprint-IsId (chunk bucket (x ∷ xs))),
        split_loop-IsRange fuel bucket upper rest h below,
      )

  name_ids-IsRange :
      (items : List Item) (upper : ℕ) (ranges : List Range)
      → IsU64 upper
      → HaveIds items
      → All IsRange ranges
      → All IsRange (name_ids blake3 items upper ranges)
  unfolding name_ids
  name_ids-IsRange items upper ranges h i a =
      elim (Bool-cases (
        (length ranges == 1)
        && (ltb idlist_limit (length items) && leb (length items) max_ids_per_range))) [
          | inl fit ↦
              let few : length items ≤ max_ids_per_range = ground (arith, fit) in
              rw fit ((h, ids_of-IsMode items i few), tt)
          | inr unfit ↦ rw unfit a
        ]

  pub split_bounded-IsRange :
      (budget upper : ℕ) (items : List Item)
      → IsU64 upper
      → HaveIds items
      → All (λ item. item.seq < upper) items
      → All IsRange (split_bounded blake3 items upper budget)
  unfolding split_bounded
  split_bounded-IsRange budget upper items h i k =
      let factor = min 8 (max budget 1) in
      let bucket = max (div_ceil (length items) factor) 1 in
      elim (Bool-cases (factor == 1)) [
        | inl whole ↦ rw whole (elim (Bool-cases (leb (length items) max_ids_per_range)) [
          | inl fit ↦
              let few : length items ≤ max_ids_per_range = ground (arith, fit) in
              rw fit ((h, ids_of-IsMode items i few), tt)
          | inr unfit ↦ rw unfit ((h, fingerprint-IsId items), tt)
        ])
        | inr divided ↦ rw divided (
            name_ids-IsRange items upper (split_loop blake3 (length items) bucket upper items) h i
              (split_loop-IsRange (length items) bucket upper items h k))
      ]
