-- ===== src/Tests/Envelopes.antt =====
-- One envelope of backend/wealdrelay/src/envelope/mod.rs, and its bytes.
use wealdrelay.Base.{ℕ, zero, suc, ◌≡◌, ◌↔◌, refl, arith, List, [], ◌∷◌, ◌++◌, ok}
use wealdrelay.Cbor.Encode
use wealdrelay.Envelope.{Envelope, mls, min_mls, encode, decode, validate}
use wealdrelay.Envelope.RoundTrip.{InRange, decode-encode}
use wealdrelay.Envelope.Canonical.{encode-decode}
use wealdrelay.Envelope.Validate.{IsAcceptable, validate_iff}

abbrev zeros : ℕ → List ℕ
zeros zero = []
zeros (suc n) = 0 ∷ zeros n

abbrev sent : Envelope
sent = record {
  v = 1;
  enc = mls;
  group = zeros 32;
  epoch = 3;
  seq = 7;
  ts = 1000;
  hash = zeros 32;
  ct = 1 ∷ 2 ∷ 3 ∷ [];
}

abbrev sent_bytes : List ℕ
sent_bytes =
    0x88
    ∷ 1
    ∷ 1
    ∷ 0x58
    ∷ 32
    ∷ (zeros 32 ++ (3 ∷ 7 ∷ 0x19 ∷ 3 ∷ 0xe8 ∷ 0x58 ∷ 32 ∷ (zeros 32 ++ (0x43 ∷ 1 ∷ 2 ∷ 3 ∷ []))))

sent-InRange : InRange sent
sent-InRange = record {
  v_fits = omega arith;
  group_fits = refl;
  epoch_fits = omega arith;
  seq_fits = omega arith;
  ts_fits = omega arith;
  hash_fits = refl;
  ct_fits = omega arith;
}

decode-encode_example : decode (encode sent) ≡ ok sent
decode-encode_example = decode-encode sent sent-InRange

encode-sent : encode sent ≡ sent_bytes
unfolding encode Encode.array Encode.head Encode.uint Encode.bytes
encode-sent = refl

decode-sent : decode sent_bytes ≡ ok sent
decode-sent = rw (← encode-sent) (decode-encode sent sent-InRange)

encode-decode_example : InRange sent × (encode sent ≡ sent_bytes)
encode-decode_example = encode-decode sent_bytes sent (omega arith) decode-sent

-- A digest in place of BLAKE3: 32 zeros.
abbrev digest : List ℕ → List ℕ
digest bytes = zeros 32

validate_iff_example : (validate digest sent min_mls ≡ ok tt) ↔ IsAcceptable digest sent min_mls
validate_iff_example = validate_iff digest sent min_mls
