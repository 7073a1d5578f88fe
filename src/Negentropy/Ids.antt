-- ===== src/Negentropy/Ids.antt =====
-- The id lists of backend/wealdrelay/src/negentropy/mod.rs: the order and the length of `ids_of`.
use wealdrelay.Base.{
  bytes_lt, insert_sorted, sort, dedup_behind, dedup, ℕ, suc, ◌+◌, ◌≤◌, ◌≡◌, refl, arith, true,
  false, not, Option, none, some, List, [], ◌∷◌, length, map, All, bytes_eq, bytes_eq_sound,
  Bool-cases, inl, inr, ap,
}
use wealdrelay.Negentropy.Items.{ContentId, Item, ids_of}
use wealdrelay.Negentropy.Message.{is_unordered}

-- Each id is above the one before it.
abbrev pub Ascends : Option ContentId → List ContentId → Type 0
Ascends last [] = Unit {0}
Ascends last (a ∷ rest) = (is_unordered last a ≡ false) × Ascends (some a) rest

bytes_lt_asym : (a b : List ℕ) → bytes_lt a b ≡ true → bytes_lt b a ≡ false
unfolding bytes_lt
bytes_lt_asym [] [] h = cc
bytes_lt_asym [] (y ∷ ys) h = refl
bytes_lt_asym (x ∷ xs) [] h = cc
bytes_lt_asym (x ∷ xs) (y ∷ ys) h = ground (arith, bytes_lt_asym xs ys)

bytes_lt_total : (a b : List ℕ) → bytes_lt b a ≡ false → bytes_eq a b ≡ false → bytes_lt a b ≡ true
unfolding bytes_lt
bytes_lt_total [] [] h k = cc
bytes_lt_total [] (y ∷ ys) h k = refl
bytes_lt_total (x ∷ xs) [] h k = cc
bytes_lt_total (x ∷ xs) (y ∷ ys) h k = ground (arith, bytes_lt_total xs ys)

-- No id is below the one before it.
abbrev Sorted : ContentId → List ContentId → Type 0
Sorted a [] = Unit {0}
Sorted a (b ∷ bs) = (bytes_lt b a ≡ false) × Sorted b bs

abbrev SortedAll : List ContentId → Type 0
SortedAll [] = Unit {0}
SortedAll (a ∷ rest) = Sorted a rest

insert_sorted-Sorted :
    (c a : ContentId) (bs : List ContentId)
    → bytes_lt a c ≡ false
    → Sorted c bs
    → Sorted c (insert_sorted a bs)
unfolding insert_sorted
insert_sorted-Sorted c a [] h s = (h, tt)
insert_sorted-Sorted c a (b ∷ bs) h s = elim (Bool-cases (bytes_lt b a)) [
  | inl lt ↦ rw lt (s.0, insert_sorted-Sorted b a bs (bytes_lt_asym b a lt) s.1)
  | inr ge ↦ rw ge (h, (ge, s.1))
]

sort-Sorted : (xs : List ContentId) → SortedAll (sort xs)
unfolding sort
sort-Sorted [] = tt
sort-Sorted (a ∷ xs) = insert_into a (sort xs) (sort-Sorted xs)
  where
    insert_into :
        (a : ContentId) (bs : List ContentId) → SortedAll bs → SortedAll (insert_sorted a bs)
    insert_into a [] s = tt
    insert_into a (b ∷ bs) s = elim (Bool-cases (bytes_lt b a)) [
      | inl lt ↦ rw lt (insert_sorted-Sorted b a bs (bytes_lt_asym b a lt) s)
      | inr ge ↦ rw ge (ge, s)
    ]

dedup_behind-Ascends :
    (a : ContentId) (bs : List ContentId) → Sorted a bs → Ascends (some a) (dedup_behind a bs)
unfolding dedup_behind
dedup_behind-Ascends a [] s = tt
dedup_behind-Ascends a (b ∷ bs) s = elim (Bool-cases (bytes_eq a b)) [
  | inl same ↦
      let e : a ≡ b = bytes_eq_sound a b same in rw same (rw e (dedup_behind-Ascends b bs s.1))
  | inr other ↦ rw other (ap not (bytes_lt_total a b s.0 other), dedup_behind-Ascends b bs s.1)
]

dedup-Ascends : (xs : List ContentId) → SortedAll xs → Ascends none (dedup xs)
unfolding dedup
dedup-Ascends [] s = tt
dedup-Ascends (a ∷ xs) s = (refl, dedup_behind-Ascends a xs s)

-- `ids_of` answers ids that ascend strictly, the order that the decoder wants of an id list.
pub ids_of-Ascends : (items : List Item) → Ascends none (ids_of items)
unfolding ids_of
ids_of-Ascends items = dedup-Ascends _ (sort-Sorted (map (λ item. item.id) items))

length-insert_sorted :
    (a : ContentId) (bs : List ContentId) → length (insert_sorted a bs) ≡ length bs + 1
unfolding insert_sorted
length-insert_sorted a [] = omega arith
length-insert_sorted a (b ∷ bs) = ground (arith, length-insert_sorted a bs)

length-sort : (xs : List ContentId) → length (sort xs) ≡ length xs
unfolding sort
length-sort [] = refl
length-sort (a ∷ xs) = omega (arith, length-insert_sorted a (sort xs), length-sort xs)

length-dedup_behind : (a : ContentId) (bs : List ContentId) → length (dedup_behind a bs) ≤ length bs
unfolding dedup_behind
length-dedup_behind a [] = omega arith
length-dedup_behind a (b ∷ bs) = ground (arith, length-dedup_behind b bs)

length-dedup : (xs : List ContentId) → length (dedup xs) ≤ length xs
unfolding dedup
length-dedup [] = omega arith
length-dedup (a ∷ xs) = omega (arith, length-dedup_behind a xs)

length-ids : (items : List Item) → length (map (λ item. item.id) items) ≡ length items
length-ids [] = refl
length-ids (x ∷ xs) = ap suc (length-ids xs)

pub length-ids_of : (items : List Item) → length (ids_of items) ≤ length items
unfolding ids_of
length-ids_of items =
    let ids = map (λ item. item.id) items in
    omega (arith, length-dedup (sort ids), length-sort ids, length-ids items)

module _ (P : ContentId → Type 0) where
  All-insert_sorted :
      (a : ContentId) (bs : List ContentId) → P a → All P bs → All P (insert_sorted a bs)
  unfolding insert_sorted
  All-insert_sorted a [] h k = (h, tt)
  All-insert_sorted a (b ∷ bs) h k = elim (Bool-cases (bytes_lt b a)) [
    | inl lt ↦ rw lt (k.0, All-insert_sorted a bs h k.1)
    | inr ge ↦ rw ge (h, k)
  ]

  All-sort : (xs : List ContentId) → All P xs → All P (sort xs)
  unfolding sort
  All-sort [] h = tt
  All-sort (a ∷ xs) h = All-insert_sorted a (sort xs) h.0 (All-sort xs h.1)

  All-dedup_behind : (a : ContentId) (bs : List ContentId) → All P bs → All P (dedup_behind a bs)
  unfolding dedup_behind
  All-dedup_behind a [] h = tt
  All-dedup_behind a (b ∷ bs) h = elim (Bool-cases (bytes_eq a b)) [
    | inl same ↦ rw same (All-dedup_behind b bs h.1)
    | inr other ↦ rw other (h.0, All-dedup_behind b bs h.1)
  ]

  All-dedup : (xs : List ContentId) → All P xs → All P (dedup xs)
  unfolding dedup
  All-dedup [] h = tt
  All-dedup (a ∷ xs) h = (h.0, All-dedup_behind a xs h.1)

  All-ids :
      (items : List Item) → All (λ item. P item.id) items → All P (map (λ item. item.id) items)
  All-ids [] h = tt
  All-ids (x ∷ xs) h = (h.0, All-ids xs h.1)

  pub All-ids_of : (items : List Item) → All (λ item. P item.id) items → All P (ids_of items)
  unfolding ids_of
  All-ids_of items h = All-dedup _ (All-sort _ (All-ids items h))
