-- ===== src/Negentropy/Items.antt =====
-- The items of backend/wealdrelay/src/negentropy/mod.rs: sequence numbers and content addresses.
-- An `ContentId` is a list of 32 bytes. `sort_unstable` is insertion sort, and a `BTreeSet` its ascending
-- list; both go by the order of byte strings. BLAKE3 is the parameter `blake3`.
use wealdrelay.Base.{
  bytes_lt, sort, dedup, contains, ℕ, suc, ◌-◌, Bool, true, false, List, [], ◌∷◌, ◌++◌, ◌&&◌, ltb,
  if◌then◌else◌, length, take, drop, map, bytes_eq, to_be_bytes,
}

abbrev pub ContentId : Type 0
ContentId = List ℕ

pub record Item : Type 0 where
  pub seq : ℕ
  pub id : ContentId

unfoldable pub ids_of : List Item → List ContentId
unfolding sort dedup
ids_of items = dedup (sort (map (λ item. item.id) items))

-- `BTreeSet::insert`
unfoldable pub set_insert : ContentId → List ContentId → List ContentId
unfolding bytes_lt
set_insert a [] = a ∷ []
set_insert a (b ∷ bs) =
    if bytes_eq a b then b ∷ bs else if bytes_lt b a then b ∷ set_insert a bs else a ∷ b ∷ bs

-- `collect` into a `BTreeSet`.
unfoldable pub set_of : List ContentId → List ContentId
unfolding set_insert
set_of [] = []
set_of (a ∷ rest) = set_insert a (set_of rest)

unfoldable pub is_subset : List ContentId → List ContentId → Bool
unfolding contains
is_subset [] bs = true
is_subset (a ∷ rest) bs = contains a bs && is_subset rest bs

-- `==` on two sets.
unfoldable pub set_eq : List ContentId → List ContentId → Bool
set_eq [] [] = true
set_eq [] (b ∷ bs) = false
set_eq (a ∷ rest) [] = false
set_eq (a ∷ rest) (b ∷ bs) = bytes_eq a b && set_eq rest bs

-- `partition_point` on a slice that the test partitions: how many items come before the first that
-- fails it.
unfoldable pub partition_point : (Item → Bool) → List Item → ℕ
partition_point test [] = 0
partition_point test (item ∷ items) =
    let later = partition_point test items in if test item then suc later else 0

unfoldable pub items_in : List Item → ℕ → ℕ → List Item
unfolding partition_point
items_in items lower upper =
    let start = partition_point (λ item. ltb item.seq lower) items in
    let end = partition_point (λ item. ltb item.seq upper) items in
    take (end - start) (drop start items)

-- `b"weald negentropy fingerprint v1"`
abbrev pub fingerprint_label : List ℕ
fingerprint_label =
    b'w' ∷ b'e' ∷ b'a' ∷ b'l' ∷ b'd' ∷ 32 ∷ b'n' ∷ b'e' ∷ b'g' ∷ b'e' ∷ b'n' ∷ b't' ∷ b'r' ∷ b'o'
    ∷ b'p' ∷ b'y' ∷ 32 ∷ b'f' ∷ b'i' ∷ b'n' ∷ b'g' ∷ b'e' ∷ b'r' ∷ b'p' ∷ b'r' ∷ b'i' ∷ b'n' ∷ b't'
    ∷ 32 ∷ b'v' ∷ b'1' ∷ []

unfoldable pub item_bytes : List Item → List ℕ
unfolding to_be_bytes
item_bytes [] = []
item_bytes (item ∷ items) = to_be_bytes 8 item.seq ++ (item.id ++ item_bytes items)

-- What the hasher is fed.
unfoldable pub preimage : List Item → List ℕ
unfolding item_bytes
preimage items = fingerprint_label ++ (to_be_bytes 8 (length items) ++ item_bytes items)

unfoldable pub fingerprint : (List ℕ → List ℕ) → List Item → ContentId
unfolding preimage
fingerprint blake3 items = blake3 (preimage items)
