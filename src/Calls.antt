-- ===== src/Calls.antt =====
-- backend/wealdrelay/src/calls/mod.rs: the limits on calls and the kinds of a call frame. A call and
-- a stream are byte strings, and every method that reads a clock takes the time as an argument.
pub mod Media
pub mod Registry
use wealdrelay.Base.{ℕ, ◌*◌, Bool, true, false, Option, none, some, ◌==◌, if◌then◌else◌}

abbrev pub call_id_bytes : ℕ
call_id_bytes = 16

abbrev pub stream_bytes : ℕ
stream_bytes = 4

abbrev pub max_media_ct_bytes : ℕ
max_media_ct_bytes = 1_500

abbrev pub max_call_body_bytes : ℕ
max_call_body_bytes = 4_096

abbrev pub media_frames_per_stream_per_second : ℕ
media_frames_per_stream_per_second = 60

abbrev pub media_stream_window_ms : ℕ
media_stream_window_ms = 1_000

abbrev pub media_bytes_per_minute : ℕ
media_bytes_per_minute = 1_024 * 1_024

abbrev pub call_frames_per_minute : ℕ
call_frames_per_minute = 120

abbrev pub max_participants_per_call : ℕ
max_participants_per_call = 5

abbrev pub max_tracked_streams : ℕ
max_tracked_streams = 32

abbrev pub call_idle_ms : ℕ
call_idle_ms = 2 * 60 * 1_000

pub data CallKind : Type 0 where
  offer answer decline bye : CallKind

-- A kind as its byte.
unfoldable pub as_u8 : CallKind → ℕ
as_u8 offer = 1
as_u8 answer = 2
as_u8 decline = 3
as_u8 bye = 4

unfoldable pub from_u8 : ℕ → Option CallKind
from_u8 n =
    if n == 1
    then some offer
    else if n == 2
    then some answer
    else if n == 3
    then some decline
    else if n == 4
    then some bye
    else none

unfoldable pub joins : CallKind → Bool
joins offer = true
joins answer = true
joins _ = false
