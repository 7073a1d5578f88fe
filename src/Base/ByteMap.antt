-- ===== src/Base/ByteMap.antt =====
-- A hash map keyed by byte strings, as an association list with each key once.
use Prim.Native.Nat.{ℕ, suc, ◌≤◌}
use mathlib.Core.Path.{◌≡◌, refl, subst}
use mathlib.Core.Logic.{inl, inr}
use mathlib.Core.Bool.{Bool, false}
use mathlib.Core.Option.{Option, none, some}
use mathlib.Core.List.{List, [], ◌∷◌}
use native.Mathlib.Omega.{arith}
use wealdrelay.Base.Tests.{if◌then◌else◌, Bool-cases}
use wealdrelay.Base.Lists.{length, bytes_eq, bytes_eq_sound, bytes_eq_sym, bytes_eq_refl}

module _ {V : Type 0} where
  unfoldable pub lookup : List ℕ → List (List ℕ × V) → Option V
  lookup k [] = none
  lookup k ((j, v) ∷ m) = if bytes_eq j k then some v else lookup k m

  unfoldable pub insert : List ℕ → V → List (List ℕ × V) → List (List ℕ × V)
  insert k v [] = (k, v) ∷ []
  insert k v ((j, w) ∷ m) = if bytes_eq j k then (j, v) ∷ m else (j, w) ∷ insert k v m

  unfoldable pub retain : (V → Bool) → List (List ℕ × V) → List (List ℕ × V)
  retain test [] = []
  retain test ((j, v) ∷ m) = if test v then (j, v) ∷ retain test m else retain test m

  abbrev pub Keyed : List (List ℕ × V) → Type 0
  Keyed [] = Unit {0}
  Keyed ((j, v) ∷ m) = (lookup j m ≡ none) × Keyed m

  pub lookup-insert :
      (j k : List ℕ) (v : V) (m : List (List ℕ × V))
      → lookup j (insert k v m) ≡ (if bytes_eq k j then some v else lookup j m)
  unfolding lookup insert
  lookup-insert j k v [] = refl
  lookup-insert j k v ((i, w) ∷ m) = ground (
    arith,
    bytes_eq_sound i k,
    bytes_eq_sound i j,
    bytes_eq_sound k j,
    bytes_eq_refl i,
    bytes_eq_refl j,
    bytes_eq_refl k,
    lookup-insert j k v m,
  )

  lookup-insert-none :
      (j k : List ℕ) (v : V) (m : List (List ℕ × V))
      → lookup j m ≡ none
      → bytes_eq k j ≡ false
      → lookup j (insert k v m) ≡ none
  lookup-insert-none j k v m p e = ground (arith, lookup-insert j k v m)

  pub insert-Keyed : (k : List ℕ) (v : V) (m : List (List ℕ × V)) → Keyed m → Keyed (insert k v m)
  unfolding insert
  insert-Keyed k v [] d = (unfold lookup in refl, tt)
  insert-Keyed k v ((i, w) ∷ m) d =
      ground (arith, bytes_eq_sym i k, lookup-insert-none i k v m d.0, insert-Keyed k v m d.1)

  lookup-retain-none :
      (test : V → Bool) (k : List ℕ) (m : List (List ℕ × V))
      → lookup k m ≡ none
      → lookup k (retain test m) ≡ none
  unfolding lookup retain
  lookup-retain-none test k [] p = refl
  lookup-retain-none test k ((j, v) ∷ m) p = ground (arith, lookup-retain-none test k m)

  pub retain-Keyed : (test : V → Bool) (m : List (List ℕ × V)) → Keyed m → Keyed (retain test m)
  unfolding retain
  retain-Keyed test [] d = tt
  retain-Keyed test ((j, v) ∷ m) d =
      ground (arith, lookup-retain-none test j m d.0, retain-Keyed test m d.1)

  -- What stays is what passes the test.
  pub lookup-retain :
      (test : V → Bool) (k : List ℕ) (m : List (List ℕ × V))
      → Keyed m
      → lookup k (retain test m)
        ≡ elim (lookup k m) [ none ↦ none | some v ↦ if test v then some v else none ]
  unfolding lookup retain
  lookup-retain test k [] d = refl
  lookup-retain test k ((j, v) ∷ m) d = ground (
    arith,
    bytes_eq_sound j k,
    lookup-retain test k m d.1,
    lookup-retain-none test j m d.0,
    lookup-retain-none test k m,
  )

  -- The map without one key.
  unfoldable pub remove : List ℕ → List (List ℕ × V) → List (List ℕ × V)
  remove k [] = []
  remove k ((j, v) ∷ m) = if bytes_eq j k then m else (j, v) ∷ remove k m

  -- `for v in values_mut()`
  unfoldable pub map_values : (V → V) → List (List ℕ × V) → List (List ℕ × V)
  map_values f [] = []
  map_values f ((j, v) ∷ m) = (j, f v) ∷ map_values f m

  pub lookup-remove :
      (j k : List ℕ) (m : List (List ℕ × V))
      → Keyed m
      → lookup j (remove k m) ≡ (if bytes_eq k j then none else lookup j m)
  unfolding lookup remove
  lookup-remove j k [] d = ground arith
  lookup-remove j k ((i, w) ∷ m) d = ground (
    arith,
    bytes_eq_sound i k,
    bytes_eq_sound i j,
    bytes_eq_sound k j,
    bytes_eq_refl j,
    bytes_eq_refl k,
    lookup-remove j k m d.1,
  )

  lookup-remove-none :
      (j k : List ℕ) (m : List (List ℕ × V)) → lookup j m ≡ none → lookup j (remove k m) ≡ none
  unfolding lookup remove
  lookup-remove-none j k [] p = refl
  lookup-remove-none j k ((i, w) ∷ m) p = ground (arith, lookup-remove-none j k m)

  pub remove-Keyed : (k : List ℕ) (m : List (List ℕ × V)) → Keyed m → Keyed (remove k m)
  unfolding remove
  remove-Keyed k [] d = tt
  remove-Keyed k ((i, w) ∷ m) d = ground (arith, lookup-remove-none i k m d.0, remove-Keyed k m d.1)

  pub lookup-map_values :
      (f : V → V) (k : List ℕ) (m : List (List ℕ × V))
      → lookup k (map_values f m) ≡ elim (lookup k m) [ none ↦ none | some v ↦ some (f v) ]
  unfolding lookup map_values
  lookup-map_values f k [] = refl
  lookup-map_values f k ((j, v) ∷ m) = ground (arith, lookup-map_values f k m)

  pub map_values-Keyed : (f : V → V) (m : List (List ℕ × V)) → Keyed m → Keyed (map_values f m)
  unfolding map_values
  map_values-Keyed f [] d = tt
  map_values-Keyed f ((j, v) ∷ m) d =
      (ground (arith, lookup-map_values f j m, d.0), map_values-Keyed f m d.1)

-- A property of every value, and the size.
module _ {V : Type 0} (P : V → Type 0) where
  abbrev pub Every : List (List ℕ × V) → Type 0
  Every [] = Unit {0}
  Every ((j, v) ∷ m) = P v × Every m

  pub lookup-Every :
      (k : List ℕ) (m : List (List ℕ × V)) {v : V} → Every m → lookup k m ≡ some v → P v
  unfolding lookup
  lookup-Every k [] h e = cc
  lookup-Every k ((j, w) ∷ m) h e = elim (Bool-cases (bytes_eq j k)) [
    | inl b ↦ subst P (ground arith) h.0
    | inr b ↦ lookup-Every k m h.1 (ground arith)
  ]

  pub insert-Every :
      (k : List ℕ) (v : V) (m : List (List ℕ × V)) → P v → Every m → Every (insert k v m)
  unfolding insert
  insert-Every k v [] p h = (p, tt)
  insert-Every k v ((j, w) ∷ m) p h = elim (Bool-cases (bytes_eq j k)) [
    | inl b ↦ rw b (p, h.1)
    | inr b ↦ rw b (h.0, insert-Every k v m p h.1)
  ]

  pub remove-Every : (k : List ℕ) (m : List (List ℕ × V)) → Every m → Every (remove k m)
  unfolding remove
  remove-Every k [] h = tt
  remove-Every k ((j, w) ∷ m) h = elim (Bool-cases (bytes_eq j k)) [
    | inl b ↦ rw b h.1
    | inr b ↦ rw b (h.0, remove-Every k m h.1)
  ]

  pub retain-Every : (test : V → Bool) (m : List (List ℕ × V)) → Every m → Every (retain test m)
  unfolding retain
  retain-Every test [] h = tt
  retain-Every test ((j, w) ∷ m) h = elim (Bool-cases (test w)) [
    | inl b ↦ rw b (h.0, retain-Every test m h.1)
    | inr b ↦ rw b (retain-Every test m h.1)
  ]

module _ {V : Type 0} where
  pub length-insert :
      (k : List ℕ) (v : V) (m : List (List ℕ × V))
      → length (insert k v m) ≡ elim (lookup k m) [ none ↦ suc (length m) | some _ ↦ length m ]
  unfolding lookup insert
  length-insert k v [] = refl
  length-insert k v ((j, w) ∷ m) = ground (arith, length-insert k v m)

  pub length-retain : (test : V → Bool) (m : List (List ℕ × V)) → length (retain test m) ≤ length m
  unfolding retain
  length-retain test [] = omega arith
  length-retain test ((j, w) ∷ m) = ground (arith, length-retain test m)

  pub length-remove : (k : List ℕ) (m : List (List ℕ × V)) → length (remove k m) ≤ length m
  unfolding remove
  length-remove k [] = omega arith
  length-remove k ((j, w) ∷ m) = ground (arith, length-remove k m)

  pub length-map_values : (f : V → V) (m : List (List ℕ × V)) → length (map_values f m) ≡ length m
  unfolding map_values
  length-map_values f [] = refl
  length-map_values f ((j, w) ∷ m) = ground (arith, length-map_values f m)
