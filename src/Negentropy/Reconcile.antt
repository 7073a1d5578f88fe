-- ===== src/Negentropy/Reconcile.antt =====
-- The two roles of backend/wealdrelay/src/negentropy/reconcile.rs: the relay answering a round, and
-- the client driving one.
pub mod Spans
pub mod Replies
use wealdrelay.Base.{
  contains, ℕ, suc, Bool, true, false, not, Option, none, some, List, [], ◌∷◌, ◌++◌, leb,
  if◌then◌else◌, length, bytes_eq, ◌||◌,
}
use wealdrelay.Negentropy.Items.{
  ContentId, Item, ids_of, fingerprint, set_insert, set_of, is_subset, set_eq, items_in,
}
use wealdrelay.Negentropy.Message.{
  Mode, skip, fingerprinted, id_list, Range, Message, infinity, idlist_limit, spans,
}
use wealdrelay.Negentropy.Split.{span_budget, split_bounded, split}

pub record Response : Type 0 where
  pub reply : Message
  pub push : List ContentId

pub record ClientStep : Type 0 where
  pub reply : Option Message
  pub want : List ContentId
  pub send : List ContentId

unfoldable pub done : ClientStep → Bool
done s = elim s.reply [ none ↦ true | some m ↦ false ]

-- The ids of `ours` that `theirs` lacks, put into a set one by one.
unfoldable pub insert_missing : List ContentId → List ContentId → List ContentId → List ContentId
unfolding contains set_insert
insert_missing theirs [] set = set
insert_missing theirs (a ∷ ours) set =
    insert_missing theirs ours (if contains a theirs then set else set_insert a set)

abbrev one : ℕ → Mode → List Range
one upper mode = record { upper = upper; mode = mode } ∷ []

module _ (blake3 : List ℕ → List ℕ) where
  unfoldable pub initiate : List Item → Message
  unfolding ids_of split
  initiate items =
      if leb (length items) idlist_limit
      then record { ranges = one infinity (id_list (ids_of items)) }
      else record { ranges = split blake3 items infinity }

  -- Naming the ids of a range if they are few, else dividing it: what both roles do with a range
  -- that differs.
  unfoldable pub narrow : List Item → ℕ → ℕ → List Range
  unfolding ids_of split_bounded
  narrow mine upper budget =
      if leb (length mine) idlist_limit
      then one upper (id_list (ids_of mine))
      else split_bounded blake3 mine upper budget

  -- The ranges that the relay answers one span with.
  unfoldable pub answer_span : List Item → ℕ → Mode → ℕ → List Range
  unfolding fingerprint narrow ids_of set_of is_subset
  answer_span mine upper skip budget = one upper skip
  answer_span mine upper (fingerprinted theirs) budget =
      if bytes_eq (fingerprint blake3 mine) theirs then one upper skip else narrow mine upper budget
  answer_span mine upper (id_list theirs) budget =
      if is_subset (set_of theirs) (set_of (ids_of mine))
      then one upper skip
      else narrow mine upper budget

  -- The ids that the relay pushes for one span.
  unfoldable pub push_span : List Item → Mode → List ContentId → List ContentId
  unfolding insert_missing ids_of set_of
  push_span mine skip push = push
  push_span mine (fingerprinted _) push = push
  push_span mine (id_list theirs) push = insert_missing (set_of theirs) (ids_of mine) push

  -- The loop over the spans, with the ranges and the set built so far.
  unfoldable pub respond_loop :
      List Item → List (ℕ × ℕ × Mode) → List Range → List ContentId → Response
  unfolding span_budget items_in answer_span push_span
  respond_loop local [] ranges push = record { reply = record { ranges = ranges }; push = push }
  respond_loop local ((lower, upper, mode) ∷ rest) ranges push =
      let budget = span_budget (length ranges) (suc (length rest)) in
      let mine = items_in local lower upper in
      respond_loop local rest (ranges ++ answer_span mine upper mode budget)
        (push_span mine mode push)

  unfoldable pub respond : List Item → Message → Response
  unfolding respond_loop spans
  respond local incoming = respond_loop local (spans incoming) [] []

  -- Whether the client has something to say about one span, and what it says.
  unfoldable pub is_settled_for : List Item → Mode → Bool
  unfolding fingerprint ids_of set_of set_eq
  is_settled_for mine skip = true
  is_settled_for mine (fingerprinted theirs) = bytes_eq (fingerprint blake3 mine) theirs
  is_settled_for mine (id_list theirs) = set_eq (set_of (ids_of mine)) (set_of theirs)

  unfoldable pub advance_span : List Item → ℕ → Mode → ℕ → List Range
  unfolding is_settled_for narrow
  advance_span mine upper mode budget =
      if is_settled_for mine mode then one upper skip else narrow mine upper budget

  unfoldable pub want_span : List Item → Mode → List ContentId → List ContentId
  unfolding insert_missing ids_of set_of
  want_span mine skip want = want
  want_span mine (fingerprinted _) want = want
  want_span mine (id_list theirs) want = insert_missing (set_of (ids_of mine)) theirs want

  unfoldable pub send_span : List Item → Mode → List ContentId → List ContentId
  unfolding insert_missing ids_of set_of
  send_span mine skip send = send
  send_span mine (fingerprinted _) send = send
  send_span mine (id_list theirs) send = insert_missing (set_of theirs) (ids_of mine) send

  unfoldable pub advance_loop :
      List Item
      → List (ℕ × ℕ × Mode)
      → List Range
      → List ContentId
      → List ContentId
      → Bool
      → ClientStep
  unfolding span_budget items_in advance_span want_span send_span
  advance_loop local [] ranges want send speaks = record {
    reply = if speaks then some (record { ranges = ranges }) else none;
    want = want;
    send = send;
  }
  advance_loop local ((lower, upper, mode) ∷ rest) ranges want send speaks =
      let budget = span_budget (length ranges) (suc (length rest)) in
      let mine = items_in local lower upper in
      advance_loop local rest (ranges ++ advance_span mine upper mode budget)
        (want_span mine mode want) (send_span mine mode send)
        (speaks || not (is_settled_for mine mode))

  unfoldable pub advance : List Item → Message → ClientStep
  unfolding advance_loop spans
  advance local incoming = advance_loop local (spans incoming) [] [] [] false
