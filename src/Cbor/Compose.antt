-- ===== src/Cbor/Compose.antt =====
-- Rules for the decoders built on backend/wealdrelay/src/cbor.rs: chains of reads in front of chains
-- of encoded fields.
use mathlib.Core.List.{append_assoc, append-nil}
use mathlib.Core.Path.{subst}
use wealdrelay.Base.{
  ℕ, suc, Bool, true, false, map, ap, refl, ◌≤◌, ◌<◌, ◌≡◌, sym, ◌∙◌, arith, none, List, [], ◌∷◌,
  ◌++◌, length, All, IsU64, Result, ok, length-append, Method, pure, lift, convert, ◌>>=◌, ◌>>◌,
}
use wealdrelay.Cbor.Encode
use wealdrelay.Cbor.Encode.{head, concat}
use wealdrelay.Cbor.Utf8.{is_utf8}
use wealdrelay.Cbor.Reader.{CborError, Reader, Read, new, finish, is_at_end}
use wealdrelay.Cbor.Typed.{
  advance, narrowed, uint, bytes, bytes_of, array, array_header, optional_bytes, text, boolean,
}
use wealdrelay.Cbor.RoundTrip.{
  At, At-advance, advance-append, uint_back, narrowed_back, bytes_back, bytes_of_back, array_back,
  array_header_back, text_back, boolean_back, optional_bytes_back,
}

-- `m` reads `a` back from `written`, and stops behind it, whatever follows.
pub record Back {E A : Type 0} (m : Method Reader E A) (a : A) (written : List ℕ) : Type 0 where
  pub back :
      (r : Reader) (post : List ℕ)
      → At r (written ++ post)
      → m r ≡ (ok a, advance (length written) r)

module _ {E : Type 0} where
  pub Back-pure : {A : Type 0} (a : A) → Back {E = E} (pure a) a []
  Back-pure a = record { back = λ r post e. ground arith }

  pub Back-lift : {A : Type 0} {m : Result E A} {a : A} → m ≡ ok a → Back (lift m) a []
  Back-lift p = record { back = λ r post e. ground arith }

  pub Back-convert :
      {A : Type 0} (f : CborError → E) {m : Read A} {a : A} {xs : List ℕ}
      → Back m a xs
      → Back (convert f m) a xs
  Back-convert f h = record { back = λ r post e. ground (arith, h.back r post e) }

  pub Back-bind :
      {A B : Type 0} {m : Method Reader E A} (f : A → Method Reader E B) {a : A} {b : B}
      {xs ys : List ℕ}
      → Back m a xs
      → Back (f a) b ys
      → Back (m >>= f) b (xs ++ ys)
  Back-bind f {xs = xs} {ys = ys} h k = record {
    back = λ r post e.
        let e' = e ∙ append_assoc xs ys post in
        ground (
          arith,
          h.back r (ys ++ post) e',
          k.back (advance (length xs) r) post (At-advance r xs (ys ++ post) e'),
          advance-append r xs ys,
        );
  }

  -- A last step that reads nothing.
  pub Back-last :
      {A B : Type 0} {m : Method Reader E A} (f : A → Method Reader E B) {a : A} {b : B}
      {xs : List ℕ}
      → Back m a xs
      → Back (f a) b []
      → Back (m >>= f) b xs
  Back-last {m = m} f {b = b} {xs = xs} h k =
      subst (λ ys. Back {E = E} (m >>= f) b ys) (append-nil xs) (Back-bind f h k)

  pub Back-end :
      {A : Type 0} {m : Method Reader E A} {a : A} {xs : List ℕ} → Back m a xs → Back m a (xs ++ [])
  Back-end {m = m} {a = a} {xs = xs} h = subst (λ ys. Back {E = E} m a ys) (sym (append-nil xs)) h

  pub Back-map :
      {A B : Type 0} {m : Method Reader E A} (g : A → B) {a : A} {xs : List ℕ}
      → Back m a xs
      → Back (do b ← m; pure (g b)) (g a) xs
  Back-map g {a = a} h = Back-last _ h (Back-pure (g a))

  pub Back-then :
      {A : Type 0} {m : Method Reader E (Unit {0})} {k : Method Reader E A} {a : A} {xs ys : List ℕ}
      → Back m tt xs
      → Back k a ys
      → Back (m >> k) a (xs ++ ys)
  Back-then h k = record { back = (Back-bind (λ _. _) h k).back }

  -- A decoder that ends by `finish` takes exactly what was written.
  pub Back-whole :
      {A : Type 0} (f : CborError → E) {m : Method Reader E A} {a : A} {xs : List ℕ}
      → Back m a xs
      → ((do b ← m; convert f finish; pure b) (new xs)).0 ≡ ok a
  unfolding finish is_at_end new
  Back-whole f {xs = xs} h = ground (arith, h.back (new xs) [] (sym (append-nil xs)))

-- The reads of one field.
pub Back-uint : (v : ℕ) → IsU64 v → Back uint v (Encode.uint v)
Back-uint v h = record { back = λ r post e. uint_back r v post h e }

pub Back-narrowed :
    (modulus v : ℕ) → IsU64 v → v < modulus → Back (narrowed modulus) v (Encode.uint v)
Back-narrowed modulus v h k = record { back = λ r post e. narrowed_back modulus r v post h k e }

pub Back-bytes : (value : List ℕ) → IsU64 (length value) → Back bytes value (Encode.bytes value)
Back-bytes value h = record { back = λ r post e. bytes_back r value post h e }

pub Back-bytes_of :
    (count : ℕ) (value : List ℕ)
    → IsU64 count
    → length value ≡ count
    → Back (bytes_of count) value (Encode.bytes value)
Back-bytes_of count value h k = record {
  back = λ r post e. bytes_of_back count r value post (omega arith) k e;
}

-- Every encoded item takes a byte at least.
pub length-head-pos : (major v : ℕ) → 1 ≤ length (head major v)
unfolding head
length-head-pos major v = ground arith

pub length-uint-pos : (v : ℕ) → 1 ≤ length (Encode.uint v)
unfolding Encode.uint
length-uint-pos v = length-head-pos 0 v

pub length-bytes-pos : (value : List ℕ) → 1 ≤ length (Encode.bytes value)
unfolding Encode.bytes
length-bytes-pos value =
    omega (arith, length-head-pos 2 (length value), length-append (head 2 (length value)) value)

pub length-array-pos : (items : List (List ℕ)) → 1 ≤ length (Encode.array items)
unfolding Encode.array
length-array-pos items =
    omega (
      arith,
      length-head-pos 4 (length items),
      length-append (head 4 (length items)) (concat items),
    )

pub length-concat :
    (items : List (List ℕ)) → All (λ x. 1 ≤ length x) items → length items ≤ length (concat items)
unfolding concat
length-concat [] h = omega arith
length-concat (x ∷ xs) h = omega (arith, length-concat xs h.1, length-append x (concat xs))

-- A struct: an array head that counts the items, then the items.
module _ {E : Type 0} where
  pub Back-array :
      {A : Type 0} (f : CborError → E) {k : Method Reader E A} {a : A} (items : List (List ℕ))
      → IsU64 (length items)
      → All (λ x. 1 ≤ length x) items
      → Back k a (concat items)
      → Back (convert f (array (length items)) >> k) a (Encode.array items)
  unfolding Encode.array
  Back-array f items fits each h = record {
    back = λ r post e.
        let front = head 4 (length items) in
        let e' = e ∙ append_assoc front (concat items) post in
        ground (
          arith,
          array_back (length items) r (concat items ++ post) fits
              (omega (arith, length-concat items each, length-append (concat items) post)) e',
          h.back (advance (length front) r) post (At-advance r front (concat items ++ post) e'),
          advance-append r front (concat items),
        );
  }

  -- A list whose head says how long it is.
  pub Back-counted :
      {A : Type 0} (f : CborError → E) (k : ℕ → Method Reader E A) {a : A} (items : List (List ℕ))
      → IsU64 (length items)
      → All (λ x. 1 ≤ length x) items
      → Back (k (length items)) a (concat items)
      → Back (convert f array_header >>= k) a (Encode.array items)
  unfolding Encode.array
  Back-counted f k items fits each h = record {
    back = λ r post e.
        let front = head 4 (length items) in
        let e' = e ∙ append_assoc front (concat items) post in
        ground (
          arith,
          array_header_back r (length items) (concat items ++ post) fits
              (omega (arith, length-concat items each, length-append (concat items) post)) e',
          h.back (advance (length front) r) post (At-advance r front (concat items ++ post) e'),
          advance-append r front (concat items),
        );
  }

module _ {E : Type 0} where
  -- A list whose head says how long it is, and more fields behind it.
  pub Back-counted-then :
      {A : Type 0} (f : CborError → E) (k : ℕ → Method Reader E A) {a : A} (items : List (List ℕ))
      (more : List ℕ)
      → IsU64 (length items)
      → All (λ x. 1 ≤ length x) items
      → Back (k (length items)) a (concat items ++ more)
      → Back (convert f array_header >>= k) a (Encode.array items ++ more)
  unfolding Encode.array
  Back-counted-then f k items more fits each h = record {
    back = λ r post e.
        let front = head 4 (length items) in
        let body = concat items ++ more in
        let e₁ = append_assoc front (concat items) more in
        let e' = (e ∙ ap (λ xs. xs ++ post) e₁) ∙ append_assoc front body post in
        ground (
          arith,
          array_header_back r (length items) (body ++ post) fits
              (omega (
                arith,
                length-concat items each,
                length-append (concat items) more,
                length-append body post,
              ))
              e',
          h.back (advance (length front) r) post (At-advance r front (body ++ post) e'),
          advance-append r front body,
          ap length e₁,
        );
  }

pub Back-null : Back optional_bytes none Encode.null
Back-null = record {
  back =
      λ r post e. unfold Encode.optional_bytes in optional_bytes_back r none post (omega arith) e;
}

pub Back-text :
    (value : List ℕ)
    → IsU64 (length value)
    → is_utf8 value ≡ true
    → Back text value (Encode.text value)
Back-text value h u = record { back = λ r post e. text_back r value post h u e }

pub Back-boolean : (value : Bool) → Back boolean value (Encode.boolean value)
Back-boolean value = record { back = λ r post e. boolean_back r value post e }

pub length-text-pos : (value : List ℕ) → 1 ≤ length (Encode.text value)
unfolding Encode.text
length-text-pos value =
    omega (arith, length-head-pos 3 (length value), length-append (head 3 (length value)) value)

pub length-boolean-pos : (value : Bool) → 1 ≤ length (Encode.boolean value)
unfolding Encode.boolean
length-boolean-pos true = omega arith
length-boolean-pos false = omega arith

pub length-map : {A B : Type 0} (f : A → B) (xs : List A) → length (map f xs) ≡ length xs
length-map f [] = refl
length-map f (x ∷ xs) = ap suc (length-map f xs)

pub bytes-pos : (items : List (List ℕ)) → All (λ x. 1 ≤ length x) (map Encode.bytes items)
bytes-pos [] = tt
bytes-pos (a ∷ items) = (length-bytes-pos a, bytes-pos items)
