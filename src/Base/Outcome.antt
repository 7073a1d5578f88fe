-- ===== src/Base/Outcome.antt =====
-- Rust's `Result<A, E>`, with `?` as bind, and the same over a state that `&mut self` carries.
use mathlib.Core.Path.{◌≡◌, refl}
use mathlib.Core.Logic.{◌⊎◌, inl, inr}
use mathlib.Core.Option.{Option, none, some}

pub data Result {ℓ} (E : Type 0) (A : Type ℓ) : Type ℓ where
  ok : A → Result E A
  err : E → Result E A

pub Result-cases {ℓ} :
    {E : Type 0} {A : Type ℓ} (r : Result E A) → ((a : A) × (r ≡ ok a)) ⊎ ((e : E) × (r ≡ err e))
Result-cases (ok a) = inl (a, refl)
Result-cases (err e) = inr (e, refl)

abbrev pub ok_or : {E A : Type 0} → Option A → E → Result E A
ok_or none e = err e
ok_or (some a) e = ok a

abbrev pub map_err : {E F A : Type 0} → (E → F) → Result E A → Result F A
map_err f (ok a) = ok a
map_err f (err e) = err (f e)

-- A fallible method on a state `S`: the answer, and the state as the method leaves it.
abbrev pub Method : Type 0 → Type 0 → Type 0 → Type 0
Method S E A = S → Result E A × S

abbrev pub and_then : {S E A B : Type 0} → Result E A × S → (A → Method S E B) → Result E B × S
and_then (ok a, s) f = f a s
and_then (err e, s) f = (err e, s)

infixl 5 ◌>>=◌ ◌>>◌
abbrev pub ◌>>=◌ : {S E A B : Type 0} → Method S E A → (A → Method S E B) → Method S E B
◌>>=◌ m f s = and_then (m s) f

abbrev pub ◌>>◌ : {S E A B : Type 0} → Method S E A → Method S E B → Method S E B
◌>>◌ m k s = and_then (m s) (λ _. k)

abbrev pub pure : {S E A : Type 0} → A → Method S E A
pure a s = (ok a, s)

abbrev pub fail : {S E A : Type 0} → E → Method S E A
fail e s = (err e, s)

-- `?` on a plain result inside a method.
abbrev pub lift : {S E A : Type 0} → Result E A → Method S E A
lift r s = (r, s)

-- `?` where the error type is converted by `From`.
abbrev pub convert : {S E F A : Type 0} → (E → F) → Method S E A → Method S F A
convert f m s = let (r, s') = m s in (map_err f r, s')
