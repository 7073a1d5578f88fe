-- ===== src/Tests/Recon.antt =====
-- Items and a message for backend/wealdrelay/src/negentropy.
use wealdrelay.Base.{
  bytes_lt, ℕ, zero, suc, ◌≤◌, ◌≡◌, refl, arith, List, [], ◌∷◌, none, some, max, length, ok,
}
use wealdrelay.Negentropy.Items.{ContentId, Item, ids_of}
use wealdrelay.Negentropy.Ids.{Ascends, ids_of-Ascends}
use wealdrelay.Negentropy.Slices.{SeqsFrom}
use wealdrelay.Negentropy.Message.{Message, skip, fingerprinted, id_list, infinity, encode, decode}
use wealdrelay.Negentropy.Message.Valid.{IsValid, Reaches}
use wealdrelay.Negentropy.Message.RoundTrip.{decode-encode_recon}
use wealdrelay.Negentropy.Split.{split_bounded}
use wealdrelay.Negentropy.Split.Ranges.{HaveIds}
use wealdrelay.Negentropy.Reconcile.{respond, advance}
use wealdrelay.Negentropy.Reconcile.Replies.{respond-IsValid, advance-IsValid}
use wealdrelay.Negentropy.Split.Cover.{split_bounded-Covers}

-- 32 bytes of one value.
abbrev repeated : ℕ → ℕ → List ℕ
repeated b zero = []
repeated b (suc n) = b ∷ repeated b n

abbrev id : ℕ → ContentId
id b = repeated b 32

abbrev item : ℕ → ℕ → Item
item seq b = record { seq = seq; id = id b }

abbrev items : List Item
items = item 1 9 ∷ item 2 4 ∷ item 2 4 ∷ item 5 7 ∷ item 8 1 ∷ []

items-SeqsFrom : SeqsFrom 1 items
items-SeqsFrom = omega arith

ids_of-Ascends_example : Ascends none (ids_of items)
ids_of-Ascends_example = ids_of-Ascends items

abbrev message : Message
message = record {
  ranges =
      record { upper = 10; mode = skip }
      ∷ record { upper = 20; mode = fingerprinted (id 3) }
      ∷ record { upper = infinity; mode = id_list (id 1 ∷ id 2 ∷ []) }
      ∷ [];
}

message-IsValid : IsValid message
message-IsValid = record {
  few = omega arith;
  each = (
    (omega arith, tt),
    (
      (omega arith, refl),
      ((omega arith, (omega arith, (refl, (refl, tt)), (refl, (unfold bytes_lt in refl, tt)))), tt),
    ),
  );
  cover = (refl, (refl, (refl, refl)));
}

decode-encode_recon_example : decode (encode message) ≡ ok message
decode-encode_recon_example = decode-encode_recon message message-IsValid

-- A digest in place of BLAKE3: 32 zeros.
abbrev digest : List ℕ → List ℕ
digest bytes = id 0

split_bounded-Covers_example :
    Reaches (some 0) 10 (split_bounded digest items 10 4)
    × (length (split_bounded digest items 10 4) ≤ max 4 1)
split_bounded-Covers_example =
    split_bounded-Covers digest 4 0 10 (item 1 9) (item 2 4 ∷ item 2 4 ∷ item 5 7 ∷ item 8 1 ∷ [])
      (omega arith) (omega arith) (omega arith)

digest-length : (xs : List ℕ) → length (digest xs) ≡ 32
digest-length xs = refl

items-HaveIds : HaveIds items
items-HaveIds = omega arith

respond-IsValid_example : IsValid (respond digest items message).reply
respond-IsValid_example =
    respond-IsValid digest items message digest-length (omega arith) items-HaveIds message-IsValid

-- A client with one item, asked by a fingerprint of everything, names the item.
abbrev asked : Message
asked = record { ranges = record { upper = infinity; mode = fingerprinted (id 3) } ∷ [] }

abbrev named : Message
named = record { ranges = record { upper = infinity; mode = id_list (id 9 ∷ []) } ∷ [] }

asked-IsValid : IsValid asked
asked-IsValid = record { few = omega arith; each = ((omega arith, refl), tt); cover = (refl, refl) }

advance-asked : (advance digest (item 1 9 ∷ []) asked).reply ≡ some named
unfolding advance
advance-asked = refl

advance-IsValid_example : IsValid named
advance-IsValid_example =
    advance-IsValid digest (item 1 9 ∷ []) asked named digest-length (omega arith) (omega arith)
      asked-IsValid advance-asked
