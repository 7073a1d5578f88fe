-- ===== src/Cbor/Takes.antt =====
-- Rules for what a decoder built on backend/wealdrelay/src/cbor.rs accepts.
use mathlib.Core.List.{append_assoc, append-nil}
use mathlib.Core.Path.{subst}
use wealdrelay.Base.{
  ℕ, ◌<◌, ◌≡◌, refl, ap, sym, ◌∙◌, arith, List, [], ◌++◌, length, drop, IsU64, AreBytes, Result, ok,
  err, ◌==◌, ltb, if◌then◌else◌, length-append, and_then, Method, pure, convert, map_err, ◌>>=◌,
  ◌>>◌, ==_iff, Bool-cases, inl, inr, fail, ltb→lt, drop-length,
}
use wealdrelay.Cbor.Encode
use wealdrelay.Cbor.Encode.{head}
use wealdrelay.Cbor.Reader.{CborError, Reader, Read, new, finish, is_at_end, out_of_range}
use wealdrelay.Cbor.Typed.{narrowed, uint, bytes, bytes_of, array, array_header}
use wealdrelay.Cbor.Canonical.{Consumed, Answers}
use wealdrelay.Cbor.Accept.{
  ByteString, Count, uint_answer, bytes_answer, bytes_of_answer, array_answer, array_header_answer,
}

abbrev pub Holds : {E A : Type 0} → (A → Reader → Type 0) → Result E A × Reader → Type 0
Holds P (ok a, s) = P a s
Holds P (err e, s) = Unit

-- `P` holds of the value and the reader behind it, if there is a value.
pub record OnOk {E A : Type 0} (P : A → Reader → Type 0) (m : Result E A × Reader) : Type 0 where
  pub holds : Holds P m

Holds-bind :
    {E A B : Type 0} (P : A → Reader → Type 0) (Q : B → Reader → Type 0) (m : Result E A × Reader)
    (f : A → Method Reader E B)
    → Holds P m
    → ((a : A) (s : Reader) → P a s → OnOk Q (f a s))
    → Holds Q (and_then m f)
Holds-bind P Q (ok a, s) f h next = (next a s h).holds
Holds-bind P Q (err e, s) f h next = tt

pub OnOk-bind :
    {E A B : Type 0} {P : A → Reader → Type 0} {Q : B → Reader → Type 0} {m : Result E A × Reader}
    (f : A → Method Reader E B)
    → OnOk P m
    → ((a : A) (s : Reader) → P a s → OnOk Q (f a s))
    → OnOk Q (and_then m f)
OnOk-bind {P = P} {Q = Q} {m = m} f h next = record { holds = Holds-bind P Q m f h.holds next }

Holds-weaken :
    {E A : Type 0} (P Q : A → Reader → Type 0) (m : Result E A × Reader)
    → ((a : A) (s : Reader) → P a s → Q a s)
    → Holds P m
    → Holds Q m
Holds-weaken P Q (ok a, s) g h = g a s h
Holds-weaken P Q (err e, s) g h = tt

pub OnOk-weaken :
    {E A : Type 0} {P : A → Reader → Type 0} (Q : A → Reader → Type 0) {m : Result E A × Reader}
    → ((a : A) (s : Reader) → P a s → Q a s)
    → OnOk P m
    → OnOk Q m
OnOk-weaken {P = P} Q {m = m} g h = record { holds = Holds-weaken P Q m g h.holds }

holds-eq :
    {E A : Type 0} (P : A → Reader → Type 0) (m : Result E A × Reader) {a : A}
    → Holds P m
    → m.0 ≡ ok a
    → P a m.1
holds-eq P (ok b, s) h e = subst (λ x. P x s) (cc) h
holds-eq P (err x, s) h e = cc

pub OnOk-eq :
    {E A : Type 0} (P : A → Reader → Type 0) (m : Result E A × Reader) {a : A}
    → OnOk P m
    → m.0 ≡ ok a
    → P a m.1
OnOk-eq P m h e = holds-eq P m h.holds e

pub Consumed-none : (r : Reader) → Consumed r r []
Consumed-none r = record { same_input = refl; moved = omega arith; spelled = refl }

pub Consumed-trans :
    {r s t : Reader} (xs ys : List ℕ) → Consumed r s xs → Consumed s t ys → Consumed r t (xs ++ ys)
Consumed-trans {r} {s} {t} xs ys c d = record {
  same_input = d.same_input ∙ c.same_input;
  moved = omega (arith, c.moved, d.moved, length-append xs ys);
  spelled =
      c.spelled
      ∙ ap (◌++◌ xs) (rw c.same_input at d.spelled)
      ∙ sym (append_assoc xs ys (drop t.offset r.input));
}

-- An answer behind `xs` carried to the reader that all began with, and into the error of the
-- decoder.
carry :
    {E A : Type 0} (f : CborError → E) {r s : Reader} (xs : List ℕ) (P : A → Type 0)
    (written : A → List ℕ) (m : Result CborError A × Reader)
    → Consumed r s xs
    → OnOk (λ a t. P a × Consumed s t (written a)) m
    → Holds {E = E} (λ a t. P a × Consumed r t (xs ++ written a)) (map_err f m.0, m.1)
carry f xs P written (ok a, t) c h = (h.holds.0, Consumed-trans xs (written a) c h.holds.1)
carry f xs P written (err e, t) c h = tt

only_ok :
    {A : Type 0} (r : Reader) (P Q : A → Reader → Type 0) (m : Result CborError A × Reader)
    → ((a : A) (s : Reader) → P a s → Q a s)
    → Answers r P m
    → Holds Q m
only_ok r P Q (ok a, s) g h = g a s h
only_ok r P Q (err e, s) g h = tt

-- A typed read behind `xs`, from what it answers.
taken :
    {E A : Type 0} (f : CborError → E) {r s : Reader} (xs : List ℕ) (P : A → Type 0)
    (written : A → List ℕ) (m : Read A)
    → Consumed r s xs
    → OnOk (λ a t. P a × Consumed s t (written a)) (m s)
    → OnOk {E = E} (λ a t. P a × Consumed r t (xs ++ written a)) (convert f m s)
taken f {s = s} xs P written m c h = record { holds = carry f xs P written (m s) c h }

within : {r s : Reader} {xs : List ℕ} → AreBytes r.input → Consumed r s xs → AreBytes s.input
within hb c = rw c.same_input hb

plain_uint :
    {s : Reader} → AreBytes s.input → OnOk (λ v t. IsU64 v × Consumed s t (Encode.uint v)) (uint s)
plain_uint {s} hb = record { holds = only_ok s _ _ (uint s) (λ v t h. h) (uint_answer s hb) }

narrow_test :
    {s : Reader} (modulus v : ℕ) (t : Reader)
    → Consumed s t (Encode.uint v)
    → OnOk
        (λ n t. (n < modulus) × Consumed s t (Encode.uint n))
        ((if ltb v modulus then pure v else fail (out_of_range v)) t)
narrow_test modulus v t c = elim (Bool-cases (ltb v modulus)) [
  | inl small ↦ rw small (record { holds = (ltb→lt v modulus small, c) })
  | inr wide ↦ rw wide (record { holds = tt })
]

plain_narrowed :
    {s : Reader} (modulus : ℕ)
    → AreBytes s.input
    → OnOk (λ v t. (v < modulus) × Consumed s t (Encode.uint v)) (narrowed modulus s)
unfolding narrowed
plain_narrowed modulus hb = OnOk-bind _ (plain_uint hb) (λ v t h. narrow_test modulus v t h.1)

module _ {E : Type 0} (f : CborError → E) {r s : Reader} (xs : List ℕ) (hb : AreBytes r.input) where
  pub take_uint :
      Consumed r s xs
      → OnOk {E = E} (λ v t. IsU64 v × Consumed r t (xs ++ Encode.uint v)) (convert f uint s)
  take_uint c = taken f xs IsU64 Encode.uint uint c (plain_uint (within hb c))

  pub take_narrowed :
      (modulus : ℕ)
      → Consumed r s xs
      → OnOk {E = E}
          (λ v t. (v < modulus) × Consumed r t (xs ++ Encode.uint v))
          (convert f (narrowed modulus) s)
  take_narrowed modulus c =
      taken f xs (λ v. v < modulus) Encode.uint (narrowed modulus) c
        (plain_narrowed modulus (within hb c))

  pub take_bytes :
      Consumed r s xs
      → OnOk {E = E}
          (λ v t. IsU64 (length v) × Consumed r t (xs ++ Encode.bytes v))
          (convert f bytes s)
  take_bytes c =
      taken f xs (λ v. IsU64 (length v)) Encode.bytes bytes c
        (record {
          holds = only_ok s (ByteString s) _ (bytes s) (λ v t h. h) (bytes_answer s (within hb c));
        })

  pub take_bytes_of :
      (count : ℕ)
      → Consumed r s xs
      → OnOk {E = E}
          (λ v t. (length v ≡ count) × Consumed r t (xs ++ Encode.bytes v))
          (convert f (bytes_of count) s)
  take_bytes_of count c =
      taken f xs (λ v. length v ≡ count) Encode.bytes (bytes_of count) c
        (record {
          holds =
              only_ok s (λ v t. (length v ≡ count) × ByteString s v t) _ (bytes_of count s)
                (λ v t h. (h.0, h.1.1)) (bytes_of_answer count s (within hb c));
        })

  pub take_array :
      (count : ℕ)
      → Consumed r s xs
      → OnOk {E = E} (λ _ t. Consumed r t (xs ++ head 4 count)) (convert f (array count) s)
  take_array count c =
      OnOk-weaken (λ _ t. Consumed r t (xs ++ head 4 count)) (λ _ t h. h.1)
        (taken f xs (λ _. Unit {0}) (λ _. head 4 count) (array count) c
          (record {
            holds =
                only_ok s (λ _ t. Consumed s t (head 4 count)) _ (array count s) (λ v t h. (tt, h))
                  (array_answer count s (within hb c));
          }))

  pub take_array_header :
      Consumed r s xs
      → OnOk {E = E}
          (λ count t. IsU64 count × Consumed r t (xs ++ head 4 count))
          (convert f array_header s)
  take_array_header c = taken f xs IsU64 (head 4) array_header c (record {
    holds =
        only_ok s (Count s) _ (array_header s) (λ v t h. (h.0, h.1))
          (array_header_answer s (within hb c));
  })

-- A decoder that ends by `finish` has taken all of its input.
finish_then :
    {E A : Type 0} (f : CborError → E) (P : A → Reader → Type 0) (b : A) (s : Reader)
    → (s.offset ≡ length s.input → P b s)
    → OnOk P ((convert f finish >> pure b) s)
unfolding finish is_at_end
finish_then f P b s g = elim (Bool-cases (s.offset == length s.input)) [
  | inl e ↦ rw e (record { holds = g ((==_iff _ _).0 e) })
  | inr e ↦ rw e (record { holds = tt })
]

pub Consumed-all :
    (input : List ℕ) {s : Reader} (xs : List ℕ)
    → Consumed (new input) s xs
    → s.offset ≡ length s.input
    → xs ≡ input
unfolding new
Consumed-all input {s} xs c e =
    sym (c.spelled ∙ ap (◌++◌ xs) (rw (e, c.same_input) (drop-length input)) ∙ append-nil xs)

-- So the input of a decoder `m` is the encoding of the value that it returns, and what holds of the
-- values of `m` holds of it.
pub whole :
    {E A : Type 0} (f : CborError → E) (m : Method Reader E A) (P : A → Type 0)
    (written : A → List ℕ) (input : List ℕ) {a : A}
    → OnOk (λ b s. P b × Consumed (new input) s (written b)) (m (new input))
    → ((do b ← m; convert f finish; pure b) (new input)).0 ≡ ok a
    → P a × (written a ≡ input)
whole f m P written input h e =
    OnOk-eq (λ b _. P b × (written b ≡ input)) ((do b ← m; convert f finish; pure b) (new input))
      (OnOk-bind _ h
        (λ b s c. finish_then f _ b s (λ at_end. (c.0, Consumed-all input (written b) c.1 at_end))))
      e
