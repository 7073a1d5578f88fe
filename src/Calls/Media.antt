-- ===== src/Calls/Media.antt =====
-- backend/wealdrelay/src/calls/mod.rs: the budget of one connection on media frames.
pub mod Within
use wealdrelay.Base.{
  ℕ, ◌+◌, ◌-◌, ◌*◌, ◌/◌, ◌^◌, Bool, true, false, ◌&&◌, ◌||◌, not, Option, none, some, List, [], ◌∷◌,
  ◌++◌, ltb, leb, ◌==◌, if◌then◌else◌, length, max, Result, ok, err, bytes_eq,
}
use wealdrelay.Frame.Code.{ErrorCode, group_ingress_limited}
use wealdrelay.Push.Category.{saturating_add}
use wealdrelay.Calls.{
  media_frames_per_stream_per_second, media_stream_window_ms, media_bytes_per_minute,
  max_tracked_streams,
}

-- An entry of `streams`: the call, the stream, the start of its window and the frames spent in it.
pub record Stream : Type 0 where
  pub call_id : List ℕ
  pub stream : List ℕ
  pub started : ℕ
  pub spent : ℕ

pub record MediaBudget : Type 0 where
  pub streams : List Stream
  pub bytes_window_started_ms : ℕ
  pub bytes_spent : ℕ
  pub last_reported_ms : Option ℕ

pub data MediaRefusal : Type 0 where
  stream_rate byte_rate too_many_streams : MediaRefusal

unfoldable pub code : MediaRefusal → ErrorCode
code stream_rate = group_ingress_limited
code byte_rate = group_ingress_limited
code too_many_streams = group_ingress_limited

unfoldable pub retry_after : MediaRefusal → ℕ
retry_after stream_rate = max (media_stream_window_ms / 1_000) 1
retry_after too_many_streams = max (media_stream_window_ms / 1_000) 1
retry_after byte_rate = 60

unfoldable pub detail : MediaRefusal → ℕ
detail stream_rate = media_frames_per_stream_per_second
detail byte_rate = media_bytes_per_minute
detail too_many_streams = max_tracked_streams

abbrev pub default : MediaBudget
default = record {
  streams = [];
  bytes_window_started_ms = 0;
  bytes_spent = 0;
  last_reported_ms = none;
}

-- The first step of a charge: the window on bytes starts again when `now` is outside it.
unfoldable pub roll : ℕ → MediaBudget → MediaBudget
roll now b =
    if ltb now b.bytes_window_started_ms || leb 60_000 (now - b.bytes_window_started_ms)
    then record b { bytes_window_started_ms = now; bytes_spent = 0 }
    else b

-- The test of `retain`: a stream whose window holds `now`.
unfoldable pub is_live : ℕ → Stream → Bool
is_live now s = leb s.started now && ltb (now - s.started) media_stream_window_ms

unfoldable pub retain_live : ℕ → List Stream → List Stream
unfolding is_live
retain_live now [] = []
retain_live now (s ∷ ss) = if is_live now s then s ∷ retain_live now ss else retain_live now ss

-- The test of `find`.
unfoldable pub is_stream : List ℕ → List ℕ → Stream → Bool
is_stream call_id stream s = bytes_eq s.call_id call_id && bytes_eq s.stream stream

-- What `find` answers, and the list with one frame more on the stream that it found.
unfoldable pub find_spent : List ℕ → List ℕ → List Stream → Option ℕ
unfolding is_stream
find_spent call_id stream [] = none
find_spent call_id stream (s ∷ ss) =
    if is_stream call_id stream s then some s.spent else find_spent call_id stream ss

unfoldable pub count_frame : List ℕ → List ℕ → List Stream → List Stream
unfolding is_stream
count_frame call_id stream [] = []
count_frame call_id stream (s ∷ ss) =
    if is_stream call_id stream s
    then record s { spent = s.spent + 1 } ∷ ss
    else s ∷ count_frame call_id stream ss

-- The `match` on what `find` answers.
unfoldable pub charge_stream : ℕ → List ℕ → List ℕ → List Stream → Result MediaRefusal (List Stream)
unfolding find_spent count_frame
charge_stream now call_id stream streams = elim (find_spent call_id stream streams) [
  | some spent ↦
      if leb media_frames_per_stream_per_second spent
      then err stream_rate
      else ok (count_frame call_id stream streams)
  | none ↦
      if leb max_tracked_streams (length streams)
      then err too_many_streams
      else ok (
          streams ++ (record { call_id = call_id; stream = stream; started = now; spent = 1 } ∷ []))
]

-- How a charge ends: the bytes are spent when the stream took the frame.
unfoldable pub settle :
    MediaBudget
    → ℕ
    → List Stream
    → Result MediaRefusal (List Stream)
    → MediaBudget × Result MediaRefusal (Unit {0})
settle b next live (ok streams) = (record b { streams = streams; bytes_spent = next }, ok tt)
settle b next live (err refusal) = (record b { streams = live }, err refusal)

unfoldable pub charge :
    MediaBudget → ℕ → List ℕ → List ℕ → ℕ → MediaBudget × Result MediaRefusal (Unit {0})
unfolding roll retain_live charge_stream settle
charge b now call_id stream bytes =
    let rolled = roll now b in
    let next = saturating_add rolled.bytes_spent bytes in
    if ltb media_bytes_per_minute next
    then (rolled, err byte_rate)
    else let live = retain_live now rolled.streams in
      settle rolled next live (charge_stream now call_id stream live)

unfoldable pub is_fresh : ℕ → Option ℕ → Bool
is_fresh now none = true
is_fresh now (some last) = ltb now last || leb media_stream_window_ms (now - last)

unfoldable pub should_report : MediaBudget → ℕ → MediaBudget × Bool
unfolding is_fresh
should_report b now =
    if is_fresh now b.last_reported_ms
    then (record b { last_reported_ms = some now }, true)
    else (b, false)
