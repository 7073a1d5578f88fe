-- ===== src/Base/Members.antt =====
-- Lists of byte strings as sets: membership, filters against a list, and the order of byte strings.
use Prim.Native.Nat.{ℕ}
use mathlib.Core.Path.{◌≡◌, refl}
use mathlib.Core.Bool.{Bool, true, false, not, ◌&&◌, ◌||◌}
use mathlib.Core.List.{List, [], ◌∷◌, ◌++◌}
use native.Mathlib.Omega.{arith}
use wealdrelay.Base.Tests.{if◌then◌else◌, ltb, ◌==◌, Bool-cases}
use mathlib.Core.Logic.{inl, inr}
use wealdrelay.Base.Lists.{bytes_eq, bytes_eq_sound, bytes_eq_refl}

-- `contains`
unfoldable pub contains : List ℕ → List (List ℕ) → Bool
contains g [] = false
contains g (x ∷ xs) = bytes_eq x g || contains g xs

-- `filter(|x| !ys.contains(x))`
unfoldable pub missing : List (List ℕ) → List (List ℕ) → List (List ℕ)
unfolding contains
missing [] ys = []
missing (x ∷ xs) ys = if contains x ys then missing xs ys else x ∷ missing xs ys

-- `all(|x| ys.contains(x))` and `any(|x| ys.contains(x))`
unfoldable pub all_in : List (List ℕ) → List (List ℕ) → Bool
unfolding contains
all_in [] ys = true
all_in (x ∷ xs) ys = contains x ys && all_in xs ys

unfoldable pub any_in : List (List ℕ) → List (List ℕ) → Bool
unfolding contains
any_in [] ys = false
any_in (x ∷ xs) ys = contains x ys || any_in xs ys

-- `<` on byte strings
unfoldable pub bytes_lt : List ℕ → List ℕ → Bool
bytes_lt [] [] = false
bytes_lt [] (y ∷ ys) = true
bytes_lt (x ∷ xs) [] = false
bytes_lt (x ∷ xs) (y ∷ ys) = ltb x y || ((x == y) && bytes_lt xs ys)

unfoldable pub insert_sorted : List ℕ → List (List ℕ) → List (List ℕ)
unfolding bytes_lt
insert_sorted x [] = x ∷ []
insert_sorted x (y ∷ ys) = if bytes_lt y x then y ∷ insert_sorted x ys else x ∷ y ∷ ys

unfoldable pub sort : List (List ℕ) → List (List ℕ)
unfolding insert_sorted bytes_lt
sort [] = []
sort (x ∷ xs) = insert_sorted x (sort xs)

-- `Vec::dedup`: the first of each run of equal neighbours.
unfoldable pub dedup_behind : List ℕ → List (List ℕ) → List (List ℕ)
dedup_behind a [] = []
dedup_behind a (b ∷ bs) = let kept = dedup_behind b bs in if bytes_eq a b then kept else b ∷ kept

unfoldable pub dedup : List (List ℕ) → List (List ℕ)
unfolding dedup_behind
dedup [] = []
dedup (a ∷ rest) = a ∷ dedup_behind a rest

unfoldable pub lists_eq : List (List ℕ) → List (List ℕ) → Bool
lists_eq [] [] = true
lists_eq [] (y ∷ ys) = false
lists_eq (x ∷ xs) [] = false
lists_eq (x ∷ xs) (y ∷ ys) = bytes_eq x y && lists_eq xs ys

pub lists_eq_sound : (xs ys : List (List ℕ)) → lists_eq xs ys ≡ true → xs ≡ ys
unfolding lists_eq
lists_eq_sound [] [] h = refl
lists_eq_sound [] (y ∷ ys) h = cc
lists_eq_sound (x ∷ xs) [] h = cc
lists_eq_sound (x ∷ xs) (y ∷ ys) h = ground (arith, bytes_eq_sound x y, lists_eq_sound xs ys)

pub contains-append :
    (g : List ℕ) (xs ys : List (List ℕ)) → contains g (xs ++ ys) ≡ (contains g xs || contains g ys)
unfolding contains
contains-append g [] ys = refl
contains-append g (x ∷ xs) ys = ground (arith, contains-append g xs ys)

pub contains-missing :
    (g : List ℕ) (xs ys : List (List ℕ))
    → contains g (missing xs ys) ≡ (contains g xs && not (contains g ys))
unfolding contains missing
contains-missing g [] ys = refl
contains-missing g (x ∷ xs) ys =
    ground (arith, contains-missing g xs ys, bytes_eq_sound x g, bytes_eq_refl g)

pub all_in_sound :
    (g : List ℕ) (xs ys : List (List ℕ))
    → all_in xs ys ≡ true
    → contains g xs ≡ true
    → contains g ys ≡ true
unfolding contains all_in
all_in_sound g [] ys h k = cc
all_in_sound g (x ∷ xs) ys h k = ground (arith, all_in_sound g xs ys, bytes_eq_sound x g)

pub any_in_sound :
    (xs ys : List (List ℕ))
    → any_in xs ys ≡ true
    → (g : List ℕ) × (contains g xs ≡ true) × (contains g ys ≡ true)
unfolding contains any_in
any_in_sound [] ys h = cc
any_in_sound (x ∷ xs) ys h = elim (Bool-cases (contains x ys)) [
  | inl e ↦ (x, rw (bytes_eq_refl x) refl, e)
  | inr e ↦ let (g, p, q) = any_in_sound xs ys (rw e at h) in (g, ground (arith, p), q)
]

contains-insert_sorted :
    (g x : List ℕ) (ys : List (List ℕ))
    → contains g (insert_sorted x ys) ≡ (bytes_eq x g || contains g ys)
unfolding contains insert_sorted
contains-insert_sorted g x [] = refl
contains-insert_sorted g x (y ∷ ys) = ground (arith, contains-insert_sorted g x ys)

pub contains-sort : (g : List ℕ) (xs : List (List ℕ)) → contains g (sort xs) ≡ contains g xs
unfolding contains sort
contains-sort g [] = refl
contains-sort g (x ∷ xs) = ground (arith, contains-insert_sorted g x (sort xs), contains-sort g xs)

contains-dedup_behind :
    (g x : List ℕ) (ys : List (List ℕ))
    → (bytes_eq x g || contains g (dedup_behind x ys)) ≡ (bytes_eq x g || contains g ys)
unfolding contains dedup_behind
contains-dedup_behind g x [] = refl
contains-dedup_behind g x (y ∷ ys) =
    ground (arith, bytes_eq_sound x y, contains-dedup_behind g y ys)

pub contains-dedup : (g : List ℕ) (xs : List (List ℕ)) → contains g (dedup xs) ≡ contains g xs
unfolding contains dedup
contains-dedup g [] = refl
contains-dedup g (x ∷ xs) = contains-dedup_behind g x xs

-- Each member once.
abbrev pub Once : List (List ℕ) → Type 0
Once [] = Unit {0}
Once (g ∷ gs) = (contains g gs ≡ false) × Once gs
