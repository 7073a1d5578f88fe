-- ===== src/Calls/Media/Within.antt =====
-- backend/wealdrelay/src/calls/mod.rs: the media budget stays within its limits, each stream once.
use wealdrelay.Base.{
  ℕ, ◌≤◌, ◌<◌, ◌≡◌, refl, arith, false, none, some, List, [], ◌∷◌, ◌++◌, length, All, All-append,
  Result, ok, err, Bool-cases, Option-cases, inl, inr, length-append, bytes_eq_sym, ltb,
}
use wealdrelay.Push.Category.{saturating_add}
use wealdrelay.Calls.{
  media_frames_per_stream_per_second, media_bytes_per_minute, max_tracked_streams,
}
use wealdrelay.Calls.Media.{
  Stream, MediaBudget, MediaRefusal, roll, is_live, retain_live, is_stream, find_spent, count_frame,
  charge_stream, settle, charge, should_report,
}

-- A stream has spent at least the frame that opened its window, and no more than a window takes.
abbrev pub IsCounted : Stream → Type 0
IsCounted s = (1 ≤ s.spent) × (s.spent ≤ media_frames_per_stream_per_second)

-- No two entries for one stream of one call.
abbrev pub Once : List Stream → Type 0
Once [] = Unit {0}
Once (s ∷ ss) = (find_spent s.call_id s.stream ss ≡ none) × Once ss

pub record Tracked (streams : List Stream) : Type 0 where
  pub few : length streams ≤ max_tracked_streams
  pub counted : All IsCounted streams
  pub once : Once streams

pub record Within (b : MediaBudget) : Type 0 where
  pub tracked : Tracked b.streams
  pub bytes_bounded : b.bytes_spent ≤ media_bytes_per_minute

length-retain_live : (now : ℕ) (ss : List Stream) → length (retain_live now ss) ≤ length ss
unfolding retain_live
length-retain_live now [] = omega arith
length-retain_live now (s ∷ ss) = ground (arith, length-retain_live now ss)

retain_live-counted :
    (now : ℕ) (ss : List Stream) → All IsCounted ss → All IsCounted (retain_live now ss)
unfolding retain_live
retain_live-counted now [] h = tt
retain_live-counted now (s ∷ ss) h = elim (Bool-cases (is_live now s)) [
  | inl e ↦ rw e (h.0, retain_live-counted now ss h.1)
  | inr e ↦ rw e (retain_live-counted now ss h.1)
]

find_spent-retain_live :
    (c t : List ℕ) (now : ℕ) (ss : List Stream)
    → find_spent c t ss ≡ none
    → find_spent c t (retain_live now ss) ≡ none
unfolding find_spent retain_live
find_spent-retain_live c t now [] h = refl
find_spent-retain_live c t now (s ∷ ss) h = ground (arith, find_spent-retain_live c t now ss)

retain_live-Once : (now : ℕ) (ss : List Stream) → Once ss → Once (retain_live now ss)
unfolding retain_live
retain_live-Once now [] h = tt
retain_live-Once now (s ∷ ss) h = elim (Bool-cases (is_live now s)) [
  | inl e ↦ rw e (find_spent-retain_live s.call_id s.stream now ss h.0, retain_live-Once now ss h.1)
  | inr e ↦ rw e (retain_live-Once now ss h.1)
]

retain_live-Tracked : (now : ℕ) (ss : List Stream) → Tracked ss → Tracked (retain_live now ss)
retain_live-Tracked now ss h = record {
  few = omega (arith, length-retain_live now ss, h.few);
  counted = retain_live-counted now ss h.counted;
  once = retain_live-Once now ss h.once;
}

length-count_frame : (c t : List ℕ) (ss : List Stream) → length (count_frame c t ss) ≡ length ss
unfolding count_frame
length-count_frame c t [] = refl
length-count_frame c t (s ∷ ss) = ground (arith, length-count_frame c t ss)

count_frame-counted :
    (c t : List ℕ) (ss : List Stream) {n : ℕ}
    → find_spent c t ss ≡ some n
    → n < media_frames_per_stream_per_second
    → All IsCounted ss
    → All IsCounted (count_frame c t ss)
unfolding find_spent count_frame
count_frame-counted c t [] f u h = tt
count_frame-counted c t (s ∷ ss) f u h = elim (Bool-cases (is_stream c t s)) [
  | inl e ↦ rw e ((omega (arith, h.0), ground (arith, h.0)), h.1)
  | inr e ↦ rw e (h.0, count_frame-counted c t ss (rw e at f) u h.1)
]

find_spent-count_frame :
    (c t d u : List ℕ) (ss : List Stream)
    → find_spent d u ss ≡ none
    → find_spent d u (count_frame c t ss) ≡ none
unfolding find_spent count_frame is_stream
find_spent-count_frame c t d u [] h = refl
find_spent-count_frame c t d u (s ∷ ss) h = ground (arith, find_spent-count_frame c t d u ss)

count_frame-Once : (c t : List ℕ) (ss : List Stream) → Once ss → Once (count_frame c t ss)
unfolding count_frame
count_frame-Once c t [] h = tt
count_frame-Once c t (s ∷ ss) h = elim (Bool-cases (is_stream c t s)) [
  | inl e ↦ rw e h
  | inr e ↦ rw e (find_spent-count_frame c t s.call_id s.stream ss h.0, count_frame-Once c t ss h.1)
]

-- A stream that a list does not have, at its end.
find_spent-append :
    (d u : List ℕ) (s : Stream) (ss : List Stream)
    → find_spent d u ss ≡ none
    → is_stream d u s ≡ false
    → find_spent d u (ss ++ (s ∷ [])) ≡ none
unfolding find_spent
find_spent-append d u s [] h e = ground arith
find_spent-append d u s (x ∷ xs) h e = ground (arith, find_spent-append d u s xs)

append-Once :
    (s : Stream) (ss : List Stream)
    → find_spent s.call_id s.stream ss ≡ none
    → Once ss
    → Once (ss ++ (s ∷ []))
unfolding find_spent is_stream
append-Once s [] h o = (refl, tt)
append-Once s (x ∷ xs) h o = (
  find_spent-append x.call_id x.stream s xs o.0
      (ground (arith, bytes_eq_sym s.call_id x.call_id, bytes_eq_sym s.stream x.stream)),
  append-Once s xs (ground arith) o.1,
)

charge_stream-Tracked :
    (now : ℕ) (c t : List ℕ) (ss out : List Stream)
    → Tracked ss
    → charge_stream now c t ss ≡ ok out
    → Tracked out
unfolding charge_stream
charge_stream-Tracked now c t ss out h e = elim (Option-cases (find_spent c t ss)) [
  | inr (n, found) ↦
      let under : n < media_frames_per_stream_per_second = ground arith in
      let is : count_frame c t ss ≡ out = ground arith in
      rw (← is) record {
        few = omega (arith, length-count_frame c t ss, h.few);
        counted = count_frame-counted c t ss found under h.counted;
        once = count_frame-Once c t ss h.once;
      }
  | inl missing ↦
      let entry : Stream = record { call_id = c; stream = t; started = now; spent = 1 } in
      let small : length ss < max_tracked_streams = ground arith in
      let is : ss ++ (entry ∷ []) ≡ out = ground arith in
      rw (← is) record {
        few = omega (arith, length-append ss (entry ∷ []), small);
        counted = All-append IsCounted ss (entry ∷ []) h.counted ((omega arith, omega arith), tt);
        once = append-Once entry ss missing h.once;
      }
]

roll-Within : (now : ℕ) (b : MediaBudget) → Within b → Within (roll now b)
unfolding roll
roll-Within now b h = ground arith

settle-Within :
    (b : MediaBudget) (next : ℕ) (live : List Stream) (r : Result MediaRefusal (List Stream))
    → b.bytes_spent ≤ media_bytes_per_minute
    → next ≤ media_bytes_per_minute
    → Tracked live
    → ((out : List Stream) → r ≡ ok out → Tracked out)
    → Within (settle b next live r).0
unfolding settle
settle-Within b next live (ok out) p q h k = record { tracked = k out refl; bytes_bounded = q }
settle-Within b next live (err e) p q h k = record { tracked = h; bytes_bounded = p }

-- The budget of a connection on media tracks at most 32 streams, each once and each with 1 to 60
-- frames in its window, and has spent at most the bytes of a minute; a charge keeps that.
pub charge-Within :
    (b : MediaBudget) (now : ℕ) (c t : List ℕ) (bytes : ℕ)
    → Within b
    → Within (charge b now c t bytes).0
unfolding charge
charge-Within b now c t bytes h =
    let rolled = roll-Within now b h in
    let next = saturating_add (roll now b).bytes_spent bytes in
    let live = retain_live now (roll now b).streams in
    elim (Bool-cases (ltb media_bytes_per_minute next)) [
      | inl over ↦ rw over rolled
      | inr fits ↦ rw fits (
          settle-Within (roll now b) next live (charge_stream now c t live) rolled.bytes_bounded
            (ground arith) (retain_live-Tracked now (roll now b).streams rolled.tracked)
            (λ out e.
              charge_stream-Tracked now c t live out
                (retain_live-Tracked now (roll now b).streams rolled.tracked) e))
    ]

pub should_report-Within : (b : MediaBudget) (now : ℕ) → Within b → Within (should_report b now).0
unfolding should_report
should_report-Within b now h = ground arith
