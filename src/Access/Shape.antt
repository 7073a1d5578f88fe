-- ===== src/Access/Shape.antt =====
-- backend/wealdrelay/src/access/mod.rs: what an access set must look like by itself.
use wealdrelay.Base.{
  ℕ, Bool, true, false, not, ◌&&◌, ◌||◌, Option, none, some, List, [], ◌∷◌, ◌++◌, ltb, ◌==◌,
  if◌then◌else◌, length, Result, ok, err, map_err, contains, bytes_lt,
}
use wealdrelay.Access.{
  AccessSet, RecoveryQuorum, AccessError, ListName, empty_list, too_many_entries, unsorted,
  principal_not_an_entry, quorum_malformed, keys_fault, threshold_fault, entry_hash, max_entries,
}
use wealdrelay.Access

-- `?` between checks.
abbrev pub also : {E A : Type 0} → Result E (Unit {0}) → Result E A → Result E A
also (ok _) rest = rest
also (err e) rest = err e

abbrev is_empty : {A : Type 0} → List A → Bool
is_empty [] = true
is_empty (x ∷ xs) = false

-- `windows(2)`: some neighbours are not ascending.
unfoldable pub is_unsorted : List (List ℕ) → Bool
unfolding bytes_lt
is_unsorted [] = false
is_unsorted (x ∷ []) = false
is_unsorted (x ∷ y ∷ ys) = not (bytes_lt x y) || is_unsorted (y ∷ ys)

unfoldable pub check_list : ListName → List (List ℕ) → Bool → Result AccessError (Unit {0})
unfolding is_unsorted
check_list name items may_be_empty =
    if is_empty items && not may_be_empty
    then err (empty_list name)
    else if ltb max_entries (length items)
    then err (too_many_entries name)
    else if is_unsorted items
    then err (unsorted name)
    else ok tt

unfoldable pub check_quorum : Option RecoveryQuorum → Result AccessError (Unit {0})
unfolding check_list
check_quorum none = ok tt
check_quorum (some q) =
    also (map_err (λ _. quorum_malformed keys_fault) (check_list Access.quorum q.keys false)) (
      if (q.threshold == 0) || ltb (length q.keys) q.threshold
      then err (quorum_malformed threshold_fault)
      else ok tt)

unfoldable pub check_shape : AccessSet → Result AccessError (Unit {0})
unfolding check_list check_quorum
check_shape a = also (check_list Access.entries a.entries false) (
    also (check_list Access.authorizers a.authorizers false) (
      also (check_list Access.recovery a.recovery false)
        (also (check_list Access.pending a.pending true) (check_quorum a.quorum))))

-- The loop over the keys, with the keys left.
unfoldable pub are_entries :
    (List ℕ → List ℕ) → List ℕ → List (List ℕ) → List (List ℕ) → Result AccessError (Unit {0})
unfolding contains entry_hash
are_entries blake3 salt entries [] = ok tt
are_entries blake3 salt entries (key ∷ keys) =
    if contains (entry_hash blake3 key salt) entries
    then are_entries blake3 salt entries keys
    else err principal_not_an_entry

unfoldable pub principals_are_entries :
    (List ℕ → List ℕ) → AccessSet → List ℕ → Result AccessError (Unit {0})
unfolding are_entries
principals_are_entries blake3 a salt =
    are_entries blake3 salt a.entries (a.authorizers ++ a.recovery)
