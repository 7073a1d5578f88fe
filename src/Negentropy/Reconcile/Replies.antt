-- ===== src/Negentropy/Reconcile/Replies.antt =====
-- The replies of both roles of backend/wealdrelay/src/negentropy/reconcile.rs: the ranges they are
-- made of.
use mathlib.Core.List.{append_assoc, append-nil}
use wealdrelay.Base.{
  ℕ, suc, ◌+◌, ◌≤◌, ◌≡◌, refl, sym, ap, ◌∙◌, arith, Bool, true, false, not, ◌||◌, Option, none,
  some, List, [], ◌∷◌, ◌++◌, length, length-append, All, All-append,
}
use wealdrelay.Negentropy.Items.{ContentId, Item, items_in}
use wealdrelay.Negentropy.Slices.{SeqsFrom, items_in_lem, All-items_in}
use wealdrelay.Negentropy.Message.{Mode, Range, Message, infinity, max_ranges, spans, spans_from}
use wealdrelay.Negentropy.Message.Valid.{IsId, IsRange, Reaches, IsValid, Reaches-append}
use wealdrelay.Negentropy.Split.{span_budget}
use wealdrelay.Negentropy.Split.Ranges.{HaveIds}
use wealdrelay.Negentropy.Reconcile.{
  answer_span, push_span, respond_loop, respond, is_settled_for, advance_span, want_span, send_span,
  advance_loop, advance,
}
use wealdrelay.Negentropy.Reconcile.Spans.{
  start, Covered, InSpan, answer_span-Covered, advance_span-Covered,
}

-- The ranges that a loop adds behind the first `built`, with an answer to each span.
abbrev SpanAnswer : Type 0
SpanAnswer = List Item → ℕ → Mode → ℕ → List Range

added : SpanAnswer → List Item → ℕ → List (ℕ × ℕ × Mode) → List Range
added answer local built [] = []
added answer local built ((lower, upper, mode) ∷ rest) =
    let now =
      answer (items_in local lower upper) upper mode (span_budget built (suc (length rest))) in
    now ++ added answer local (built + length now) rest

-- What is added covers what the spans cover, and fits behind what is there.
record Adds (previous : Option ℕ) (built : ℕ) (ranges : List Range) : Type 0 where
  reaches : Reaches previous infinity ranges
  few : built + length ranges ≤ max_ranges
  each : All IsRange ranges

length-spans_from :
    (lower : ℕ) (ranges : List Range) → length (spans_from lower ranges) ≡ length ranges
unfolding spans_from
length-spans_from lower [] = refl
length-spans_from lower (r ∷ rs) = ap suc (length-spans_from r.upper rs)

module _ (answer : SpanAnswer) (local : List Item) (sorted : SeqsFrom 0 local) (ids : HaveIds local)
    (covered : (previous : Option ℕ) (upper budget : ℕ) (mine : List Item) (mode : Mode)
      → InSpan previous upper mine
      → Covered previous upper budget (answer mine upper mode budget)) where
  added-Adds :
      (built : ℕ) (previous : Option ℕ) (ranges : List Range)
      → built + length ranges ≤ max_ranges
      → All IsRange ranges
      → Reaches previous infinity ranges
      → Adds previous built (added answer local built (spans_from (start previous) ranges))
  unfolding added spans_from span_budget
  added-Adds built previous [] few each reach = record { reaches = reach; few = few; each = tt }
  added-Adds built previous (r ∷ rs) few each reach =
      let mine = items_in local (start previous) r.upper in
      let inside = items_in_lem local 0 (start previous) r.upper sorted in
      let left = length (spans_from r.upper rs) in
      let budget = span_budget built (suc left) in
      let now = answer mine r.upper r.mode budget in
      let c = covered previous r.upper budget mine r.mode (record {
        fits = each.0.0;
        above = reach.0;
        sorted = inside.0;
        below = inside.1;
        ids = All-items_in (λ item. IsId item.id) local (start previous) r.upper ids;
      }) in
      let same : left ≡ length rs = length-spans_from r.upper rs in
      let room : built + length now + length rs ≤ max_ranges = omega (arith, few, c.few, same) in
      let later = added-Adds (built + length now) (some r.upper) rs room each.1 reach.1 in
      record {
        reaches = Reaches-append previous r.upper infinity now _ c.reaches later.reaches;
        few = omega (
          arith,
          later.few,
          length-append now (added answer local (built + length now) (spans_from r.upper rs)),
        );
        each = All-append IsRange now _ c.each later.each;
      }

-- One more span, at the end of what the loop has built.
added_step :
    (ranges now : List Range) (later : ℕ → List Range)
    → (ranges ++ now) ++ later (length (ranges ++ now))
      ≡ ranges ++ (now ++ later (length ranges + length now))
added_step ranges now later =
    append_assoc ranges now _ ∙ ap (λ n. ranges ++ (now ++ later n)) (length-append ranges now)

module _ (blake3 : List ℕ → List ℕ) (local : List Item) where
  respond_loop-added :
      (rest : List (ℕ × ℕ × Mode)) (ranges : List Range) (pushed : List ContentId)
      → (respond_loop blake3 local rest ranges pushed).reply.ranges
        ≡ ranges ++ added (answer_span blake3) local (length ranges) rest
  unfolding respond_loop added
  respond_loop-added [] ranges pushed = sym (append-nil ranges)
  respond_loop-added ((lower, upper, mode) ∷ rest) ranges pushed =
      let mine = items_in local lower upper in
      let now =
        answer_span blake3 mine upper mode (span_budget (length ranges) (suc (length rest))) in
      respond_loop-added rest (ranges ++ now) (push_span blake3 mine mode pushed)
      ∙ added_step ranges now (λ n. added (answer_span blake3) local n rest)

  advance_loop-added :
      (rest : List (ℕ × ℕ × Mode)) (ranges : List Range) (want send : List ContentId)
      (speaks : Bool) (m : Message)
      → (advance_loop blake3 local rest ranges want send speaks).reply ≡ some m
      → m.ranges ≡ ranges ++ added (advance_span blake3) local (length ranges) rest
  unfolding advance_loop added
  advance_loop-added [] ranges want send true m h = ground (arith, h, append-nil ranges)
  advance_loop-added [] ranges want send false m h = cc
  advance_loop-added ((lower, upper, mode) ∷ rest) ranges want send speaks m h =
      let mine = items_in local lower upper in
      let now =
        advance_span blake3 mine upper mode (span_budget (length ranges) (suc (length rest))) in
      advance_loop-added rest (ranges ++ now) (want_span blake3 mine mode want)
        (send_span blake3 mine mode send) (speaks || not (is_settled_for blake3 mine mode)) m h
      ∙ added_step ranges now (λ n. added (advance_span blake3) local n rest)

Adds-IsValid :
    (m : Message) (ranges : List Range) → m.ranges ≡ ranges → Adds none 0 ranges → IsValid m
Adds-IsValid m ranges e a = record {
  few = omega (arith, ap length e, a.few);
  each = rw e a.each;
  cover = rw e a.reaches;
}

-- With a digest function that answers 32 bytes, and local items that are sorted by sequence number
-- and have ids of 32 bytes, the reply of `respond` to a valid message is a valid message: at most
-- 1024 ranges, upper bounds that rise strictly to 2^64 - 1, fingerprints and ids of 32 bytes, id
-- lists that ascend without repetition and have at most 4096 ids.
pub respond-IsValid :
    (blake3 : List ℕ → List ℕ) (local : List Item) (incoming : Message)
    → ((xs : List ℕ) → length (blake3 xs) ≡ 32)
    → SeqsFrom 0 local
    → HaveIds local
    → IsValid incoming
    → IsValid (respond blake3 local incoming).reply
unfolding respond spans
respond-IsValid blake3 local incoming digest sorted ids v =
    Adds-IsValid _ (added (answer_span blake3) local 0 (spans_from 0 incoming.ranges))
      (respond_loop-added blake3 local (spans_from 0 incoming.ranges) [] [])
      (added-Adds (answer_span blake3) local sorted ids (answer_span-Covered blake3 digest) 0 none
        incoming.ranges (omega (arith, v.few)) v.each v.cover)

-- With a digest function that answers 32 bytes, and local items that are sorted by sequence number
-- and have ids of 32 bytes, a reply of `advance` to a valid message, where it has one, is a valid
-- message, that is one of at most 1024 ranges, with upper bounds that rise strictly to 2^64 - 1,
-- fingerprints and ids of 32 bytes, id lists that ascend without repetition and have at most 4096
-- ids.
pub advance-IsValid :
    (blake3 : List ℕ → List ℕ) (local : List Item) (incoming reply : Message)
    → ((xs : List ℕ) → length (blake3 xs) ≡ 32)
    → SeqsFrom 0 local
    → HaveIds local
    → IsValid incoming
    → (advance blake3 local incoming).reply ≡ some reply
    → IsValid reply
unfolding advance spans
advance-IsValid blake3 local incoming reply digest sorted ids v h =
    Adds-IsValid reply (added (advance_span blake3) local 0 (spans_from 0 incoming.ranges))
      (advance_loop-added blake3 local (spans_from 0 incoming.ranges) [] [] [] false reply h)
      (added-Adds (advance_span blake3) local sorted ids (advance_span-Covered blake3 digest) 0 none
        incoming.ranges (omega (arith, v.few)) v.each v.cover)
