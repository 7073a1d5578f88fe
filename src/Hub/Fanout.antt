-- ===== src/Hub/Fanout.antt =====
-- backend/wealdrelay/src/hub.rs: who a frame reaches, and what becomes of it.
use wealdrelay.Base.{
  ℕ, ◌≡◌, refl, ◌∙◌, arith, Bool, true, false, ◌&&◌, ◌||◌, not, Option, none, some, List, [], ◌∷◌,
  if◌then◌else◌, ◌==◌, lookup, Bool-cases, inl, inr,
}
use mathlib.Core.Option
use wealdrelay.Frame.Body.{Frame}
use wealdrelay.Calls.Registry
use wealdrelay.Calls.Registry.{Queued}
use wealdrelay.Hub.{
  Hub, Subscriber, Delivery, sent, not_spoken, shed, downgraded, gone, send_ephemeral, send_durable,
  send, settle_then_send, hold_back, deliver, replace, fan, fanout_to, fanout_frame, is_ephemeral,
  is_undowngradable, downgrade_frame,
}

-- The deliveries that a kind of frame may end in, for a subscriber that owes a notice or does not.
abbrev pub may_end : Frame → Bool → Delivery → Bool
may_end frame owed sent = true
may_end frame owed not_spoken = true
may_end frame owed gone = true
may_end frame owed shed = is_ephemeral frame
may_end frame owed downgraded = not (is_undowngradable frame) && (owed || not (is_ephemeral frame))

-- Each subscriber but the one left out has one outcome, in order, of a kind that the frame allows.
abbrev pub answered : Frame → ℕ → List Subscriber → List (ℕ × Delivery) → Bool
answered frame except [] [] = true
answered frame except [] (o ∷ os) = false
answered frame except (s ∷ ss) [] = (s.id == except) && answered frame except ss []
answered frame except (s ∷ ss) (o ∷ os) =
    let rest = answered frame except ss os in
    let skipped = answered frame except ss (o ∷ os) in
    if s.id == except
    then skipped
    else (o.0 == s.id) && (may_end frame s.downgrade_owed o.1 && rest)

answered_skip :
    (frame : Frame) (except : ℕ) (s : Subscriber) (ss : List Subscriber) (os : List (ℕ × Delivery))
    → (s.id == except) ≡ true
    → answered frame except (s ∷ ss) os ≡ answered frame except ss os
answered_skip frame except s ss [] h = rw h refl
answered_skip frame except s ss (o ∷ os) h = rw h refl

module _ {Sender : Type 0} (try_queue : Sender → Frame → Sender × Queued)
    (evict : Sender → Sender) where
  deliver-may_end :
      (group : List ℕ) (frame : Frame) (minimum_version : ℕ) (s : Subscriber) (sender : Sender)
      → may_end frame s.downgrade_owed
          (deliver try_queue evict group frame minimum_version s sender).delivery
        ≡ true
  unfolding deliver settle_then_send hold_back send send_durable send_ephemeral
  deliver-may_end group frame minimum_version s sender = ground arith

  pub deliver-id :
      (group : List ℕ) (frame : Frame) (minimum_version : ℕ) (s : Subscriber) (sender : Sender)
      → (deliver try_queue evict group frame minimum_version s sender).subscriber.id ≡ s.id
  unfolding deliver settle_then_send hold_back send send_durable send_ephemeral
  deliver-id group frame minimum_version s sender = ground arith

  fan-answered :
      (group : List ℕ) (frame : Frame) (except minimum_version : ℕ) (senders : ℕ → Sender)
      (ss : List Subscriber)
      → answered frame except ss
          (fan try_queue evict group frame except minimum_version senders ss).outcomes
        ≡ true
  unfolding fan
  fan-answered group frame except minimum_version senders [] = refl
  fan-answered group frame except minimum_version senders (s ∷ ss) =
      let one = deliver try_queue evict group frame minimum_version s (senders s.id) in
      elim (Bool-cases (s.id == except)) [
        | inl e ↦ rw e (
            answered_skip frame except s ss _ e
            ∙ fan-answered group frame except minimum_version senders ss)
        | inr e ↦ rw e (
            ground (
              arith,
              deliver-may_end group frame minimum_version s (senders s.id),
              fan-answered group frame except minimum_version (replace senders s.id one.sender) ss,
            ))
      ]

  -- Where a frame reaches the queue of a subscriber that owes a notice and holds no handshakes
  -- back, the notice was queued first, the frame behind it, and the debt is gone.
  pub deliver-owed :
      (group : List ℕ) (frame : Frame) (minimum_version : ℕ) (s : Subscriber) (sender : Sender)
      → s.downgrade_owed ≡ true
      → s.held_handshakes ≡ none
      → (deliver try_queue evict group frame minimum_version s sender).delivery ≡ sent
      → let notice = try_queue sender (downgrade_frame group) in
        let one = deliver try_queue evict group frame minimum_version s sender in
        (notice.1 ≡ Registry.sent)
        × ((try_queue notice.0 frame).1 ≡ Registry.sent)
        × (one.sender ≡ (try_queue notice.0 frame).0)
        × (one.subscriber.downgrade_owed ≡ false)
  unfolding deliver settle_then_send hold_back send send_durable send_ephemeral
  deliver-owed group frame minimum_version s sender o h d = ground arith

  -- `fanout_frame` answers one outcome for each subscriber of the group but the one left out, in
  -- order; only LIVE and CALL are shed, a handshake is never turned into a notice, and LIVE and
  -- CALL only where a notice is already owed.
  pub fanout_frame-answered :
      (h : Hub) (senders : ℕ → Sender) (group : List ℕ) (frame : Frame) (except minimum_version : ℕ)
      → answered frame except
          (Option.get_or (lookup group h.groups) [])
          (fanout_frame try_queue evict h senders group frame except minimum_version).2
        ≡ true
  unfolding fanout_frame fanout_to
  fanout_frame-answered h senders group frame except minimum_version =
      by_group (lookup group h.groups)
    where
      by_group :
          (o : Option (List Subscriber))
          → answered frame except
              (Option.get_or o [])
              (fanout_to try_queue evict h senders group frame except minimum_version o).2
            ≡ true
      by_group none = refl
      by_group (some ss) = fan-answered group frame except minimum_version senders ss
