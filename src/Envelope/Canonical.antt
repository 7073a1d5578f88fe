-- ===== src/Envelope/Canonical.antt =====
-- backend/wealdrelay/src/envelope/mod.rs: what `decode` accepts.
use mathlib.Core.List.{append_assoc, append-nil}
use mathlib.Core.Path.{subst}
use wealdrelay.Base.{
  ℕ, ◌≡◌, List, [], ◌++◌, AreBytes, ok, ok_or, Bool-cases, ◌==◌, ==_iff, inl, inr,
}
use wealdrelay.Cbor.Encode
use wealdrelay.Cbor.Reader.{Reader, new}
use wealdrelay.Cbor.Typed.{u8}
use wealdrelay.Cbor.Canonical.{Consumed}
use wealdrelay.Cbor.Takes.{
  OnOk, OnOk-bind, Consumed-none, take_uint, take_narrowed, take_bytes, take_bytes_of, take_array,
  whole,
}
use wealdrelay.Envelope.RoundTrip.{InRange}
use wealdrelay.Envelope.{
  Envelope, cbor, from_u8, as_u64, fields, encode, read_fields, decode, unknown_encryption,
}

take_enc :
    {r s : Reader} (xs : List ℕ) (raw : ℕ)
    → Consumed r s (xs ++ Encode.uint raw)
    → OnOk
        (λ enc t. Consumed r t (xs ++ Encode.uint (as_u64 enc)))
        (ok_or (from_u8 raw) (unknown_encryption raw), s)
unfolding from_u8 as_u64
take_enc {r} {s} xs raw c = elim (Bool-cases (raw == 0)) [
  | inl e ↦ rw e (record { holds = same 0 ((==_iff _ _).0 e) })
  | inr e ↦ elim (Bool-cases (raw == 1)) [
    | inl k ↦ rw (e, k) (record { holds = same 1 ((==_iff _ _).0 k) })
    | inr k ↦ rw (e, k) (record { holds = tt })
  ]
]
  where
    same : (n : ℕ) → raw ≡ n → Consumed r s (xs ++ Encode.uint n)
    same n p = subst (λ k. Consumed r s (xs ++ Encode.uint k)) p c

read_fields-takes :
    (r : Reader)
    → AreBytes r.input
    → OnOk (λ e s. InRange e × Consumed r s (encode e)) (read_fields r)
unfolding read_fields encode u8 fields Encode.concat Encode.array
read_fields-takes r hb = OnOk-bind _ (take_array cbor [] hb 8 (Consumed-none r)) λ _ s₀ c₀.
    OnOk-bind _ (take_narrowed cbor _ hb _ c₀) λ v s₁ c₁.
      OnOk-bind _ (take_narrowed cbor _ hb _ c₁.1) λ raw s₂ c₂.
        OnOk-bind _ (take_enc _ raw c₂.1) λ enc s₃ c₃.
          OnOk-bind _ (take_bytes_of cbor _ hb 32 c₃) λ group s₄ c₄.
            OnOk-bind _ (take_uint cbor _ hb c₄.1) λ epoch s₅ c₅.
              OnOk-bind _ (take_uint cbor _ hb c₅.1) λ seq s₆ c₆.
                OnOk-bind _ (take_uint cbor _ hb c₆.1) λ ts s₇ c₇.
                  OnOk-bind _ (take_bytes_of cbor _ hb 32 c₇.1) λ hash s₈ c₈.
                    OnOk-bind _ (take_bytes cbor _ hb c₈.1) λ ct s₉ c₉. record {
                      holds = (
                        record {
                          v_fits = c₁.0;
                          group_fits = c₄.0;
                          epoch_fits = c₅.0;
                          seq_fits = c₆.0;
                          ts_fits = c₇.0;
                          hash_fits = c₈.0;
                          ct_fits = c₉.0;
                        },
                        simp append-nil (simp append_assoc at (c₉.1)),
                      );
                    }

-- Bytes that `decode` accepts as an envelope are exactly the encoding of that envelope, and its
-- fields are in the ranges of their types: a byte for the version, 32 bytes for the group and the
-- hash, 64-bit numbers for the rest.
pub encode-decode :
    (input : List ℕ) (e : Envelope)
    → AreBytes input
    → decode input ≡ ok e
    → InRange e × (encode e ≡ input)
unfolding decode new
encode-decode input e hb h =
    whole cbor read_fields InRange encode input (read_fields-takes (new input) hb) h
