-- ===== src/AgentCbor/Slots.antt =====
-- backend/weald-mls/src/agent_cbor.rs: the keys of a record, each with the bytes of its value.
use wealdrelay.Base.{
  ℕ, zero, suc, ◌≤◌, ◌<◌, ◌≡◌, refl, sym, ap, arith, Bool, true, false, not, ◌||◌, Option, none,
  some, List, [], ◌∷◌, length, leb, ◌==◌, if◌then◌else◌, Result, ok, err, Bool-cases, inl, inr, All,
  ==_iff,
}
use mathlib.Core.List.{Memᴰ}
use wealdrelay.AgentCbor.{
  CborError, missing_key, map_keys_not_ascending, unknown_key, trailing, counted, uint, raw_value,
}

-- `schema.contains(&key)`
unfoldable pub in_schema : ℕ → List ℕ → Bool
in_schema key [] = false
in_schema key (k ∷ ks) = (k == key) || in_schema key ks

-- `if let Some(previous) = previous`, where the key is not above it.
unfoldable pub is_behind : Option ℕ → ℕ → Option ℕ
is_behind none key = none
is_behind (some previous) key = if leb key previous then some previous else none

abbrev pub Slots : Type 0
Slots = List (ℕ × List ℕ)

abbrev pub bind :
    {A B : Type 0} → Result CborError A → (A → Result CborError B) → Result CborError B
bind (ok a) k = k a
bind (err e) k = err e

-- What comes behind a key, given the key before it where that is not below.
unfoldable pub accept_after :
    List ℕ → ℕ → List ℕ → Option ℕ → Result CborError ((ℕ × List ℕ) × List ℕ)
unfolding in_schema raw_value
accept_after schema key xs (some before) = err (map_keys_not_ascending before key)
accept_after schema key xs none =
    if not (in_schema key schema)
    then err (unknown_key key)
    else bind (raw_value xs) (λ p. ok ((key, p.0), p.1))

unfoldable pub accept_key :
    List ℕ → Option ℕ → ℕ → List ℕ → Result CborError ((ℕ × List ℕ) × List ℕ)
unfolding is_behind accept_after
accept_key schema previous key xs = accept_after schema key xs (is_behind previous key)

-- The loop over the pairs, with `n` left.
unfoldable pub read_pairs : List ℕ → ℕ → Option ℕ → List ℕ → Result CborError (Slots × List ℕ)
unfolding uint accept_key
read_pairs schema zero previous xs = ok ([], xs)
read_pairs schema (suc n) previous xs = bind (uint xs) (λ k.
    bind (accept_key schema previous k.0 k.1)
      (λ pair. bind (read_pairs schema n (some k.0) pair.1) (λ rest. ok (pair.0 ∷ rest.0, rest.1))))

unfoldable pub schema_map : List ℕ → List ℕ → Result CborError (Slots × List ℕ)
unfolding counted read_pairs
schema_map schema xs = bind (counted 5 "map" xs) (λ pairs. read_pairs schema pairs.0 none pairs.1)

unfoldable pub optional_slot : Slots → ℕ → Option (List ℕ)
optional_slot [] key = none
optional_slot ((k, v) ∷ slots) key = if k == key then some v else optional_slot slots key

unfoldable pub slot : Slots → ℕ → Result CborError (List ℕ)
unfolding optional_slot
slot slots key = elim (optional_slot slots key) [ none ↦ err (missing_key key) | some v ↦ ok v ]

-- A value that is read to its end.
unfoldable pub in_slot :
    {A : Type 0} → Slots → ℕ → (List ℕ → Result CborError (A × List ℕ)) → Result CborError A
unfolding slot
in_slot slots key read = bind (slot slots key) (λ raw.
    bind (read raw) (λ p. elim p.1 [ [] ↦ ok p.0 | x ∷ xs ↦ err (trailing (length (x ∷ xs))) ]))

abbrev pub Above : Option ℕ → ℕ → Type 0
Above none key = Unit {0}
Above (some previous) key = previous < key

-- Keys of the schema, each above the one before it.
abbrev pub Ascends : List ℕ → Option ℕ → Slots → Type 0
Ascends schema previous [] = Unit {0}
Ascends schema previous ((k, v) ∷ slots) =
    Above previous k × Memᴰ k schema × Ascends schema (some k) slots

-- Every slot of `part` is found under its key.
abbrev pub Found : Slots → Slots → Type 0
Found slots part = All (λ p. optional_slot slots p.0 ≡ some p.1) part

in_schema-Memᴰ : (key : ℕ) (schema : List ℕ) → in_schema key schema ≡ true → Memᴰ key schema
unfolding in_schema
in_schema-Memᴰ key [] h = cc
in_schema-Memᴰ key (k ∷ ks) h = elim (Bool-cases (k == key)) [
  | inl e ↦ Memᴰ.head (sym ((==_iff k key).0 e))
  | inr e ↦ Memᴰ.tail (in_schema-Memᴰ key ks (ground arith))
]

is_behind-Above :
    (previous : Option ℕ) (key : ℕ) → is_behind previous key ≡ none → Above previous key
unfolding is_behind
is_behind-Above none key h = tt
is_behind-Above (some previous) key h = ground arith

cons-Found :
    (schema : List ℕ) (key above : ℕ) (value : List ℕ) (slots part : Slots)
    → key ≤ above
    → Ascends schema (some above) part
    → Found slots part
    → Found ((key, value) ∷ slots) part
unfolding optional_slot
cons-Found schema key above value slots [] le a f = tt
cons-Found schema key above value slots ((k, v) ∷ part) le a f =
    let ih = cons-Found schema key k value slots part (omega (arith, a.0)) a.2 f.1 in
    let apart : (key == k) ≡ false = ground (arith, a.0) in (rw apart f.0, ih)

Ascends-Found :
    (schema : List ℕ) (previous : Option ℕ) (slots : Slots)
    → Ascends schema previous slots
    → Found slots slots
unfolding optional_slot
Ascends-Found schema previous [] a = tt
Ascends-Found schema previous ((k, v) ∷ slots) a =
    let ih = Ascends-Found schema (some k) slots a.2 in
    (ground arith, cons-Found schema k k v slots slots (omega arith) a.2 ih)

bind-ok :
    {A B : Type 0} (m : Result CborError A) (k : A → Result CborError B) (b : B)
    → bind m k ≡ ok b
    → (a : A) × (m ≡ ok a) × (k a ≡ ok b)
bind-ok (ok a) k b h = (a, refl, h)
bind-ok (err e) k b h = cc

abbrev from_ok : {A : Type 0} → A → Result CborError A → A
from_ok a (ok b) = b
from_ok a (err e) = a

accept_after-ok :
    (schema : List ℕ) (key : ℕ) (xs : List ℕ) (o : Option ℕ) (p : (ℕ × List ℕ) × List ℕ)
    → accept_after schema key xs o ≡ ok p
    → (o ≡ none) × (in_schema key schema ≡ true) × (p.0.0 ≡ key)
unfolding accept_after
accept_after-ok schema key xs (some before) p h = cc
accept_after-ok schema key xs none p h = elim (Bool-cases (in_schema key schema)) [
  | inr e ↦ let bad = rw e at h in cc
  | inl e ↦
      let (v, _, is) = bind-ok (raw_value xs) _ p (rw e at h) in
      (refl, e, sym (ap (λ r. (from_ok p r).0.0) is))
]

read_pairs-Ascends :
    (schema : List ℕ) (n : ℕ) (previous : Option ℕ) (xs : List ℕ) (slots : Slots) (rest : List ℕ)
    → read_pairs schema n previous xs ≡ ok (slots, rest)
    → Ascends schema previous slots × (length slots ≡ n)
unfolding read_pairs accept_key
read_pairs-Ascends schema zero previous xs [] rest h = (tt, refl)
read_pairs-Ascends schema zero previous xs (p ∷ slots) rest h = cc
read_pairs-Ascends schema (suc n) previous xs slots rest h =
    let (k, _, h₁) = bind-ok (uint xs) _ (slots, rest) h in
    let (pair, at, h₂) = bind-ok (accept_key schema previous k.0 k.1) _ (slots, rest) h₁ in
    let (more, below, h₃) = bind-ok (read_pairs schema n (some k.0) pair.1) _ (slots, rest) h₂ in
    let (above, known, same) = accept_after-ok schema k.0 k.1 (is_behind previous k.0) pair at in
    let (ih, count) = read_pairs-Ascends schema n (some k.0) pair.1 more.0 more.1 below in
    let is : pair.0 ∷ more.0 ≡ slots =
      ap (λ (r : Result CborError (Slots × List ℕ)). (from_ok (slots, rest) r).0) h₃ in
    rw (← is, same)
      (
        (is_behind-Above previous k.0 above, in_schema-Memᴰ k.0 schema known, ih),
        ground (arith, count),
      )

-- The keys that `schema_map` answers occur in the schema, each is greater than the one before it,
-- and `optional_slot` finds the value of each answered pair under its key.
pub schema_map-Ascends :
    (schema xs : List ℕ) (slots : Slots) (rest : List ℕ)
    → schema_map schema xs ≡ ok (slots, rest)
    → Ascends schema none slots × Found slots slots
unfolding schema_map
schema_map-Ascends schema xs slots rest h =
    let (pairs, _, h') = bind-ok (counted 5 "map" xs) _ (slots, rest) h in
    let (ascends, _) = read_pairs-Ascends schema pairs.0 none pairs.1 slots rest h' in
    (ascends, Ascends-Found schema none slots ascends)
