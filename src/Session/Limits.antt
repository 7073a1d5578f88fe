-- ===== src/Session/Limits.antt =====
-- backend/wealdrelay/src/session.rs: the limits on one connection, and the modes of
-- backend/wealdrelay/src/config.rs that a session reads.
use wealdrelay.Base.{ℕ, ◌+◌, ◌*◌}

abbrev pub clock_skew_limit_ms : ℕ
clock_skew_limit_ms = 5 * 60 * 1_000

abbrev pub max_groups_per_connection : ℕ
max_groups_per_connection = 256

abbrev pub max_live_bytes : ℕ
max_live_bytes = 4_096

abbrev pub live_frames_per_minute : ℕ
live_frames_per_minute = 900

abbrev pub keys_frames_per_minute : ℕ
keys_frames_per_minute = 30

abbrev pub wake_frames_per_minute : ℕ
wake_frames_per_minute = 30

abbrev pub join_frames_per_minute : ℕ
join_frames_per_minute = 20

-- `MAX_SCOPES` of backend/wealdrelay/src/invite/mod.rs
abbrev pub max_scopes : ℕ
max_scopes = 256

abbrev pub join_frames_per_minute_reserved : ℕ
join_frames_per_minute_reserved = join_frames_per_minute + 2 * max_scopes + 2

abbrev pub handshake_frames_per_minute : ℕ
handshake_frames_per_minute = 120

abbrev pub access_frames_per_minute : ℕ
access_frames_per_minute = 30

abbrev pub wrap_frames_per_minute : ℕ
wrap_frames_per_minute = 30

abbrev pub invite_frames_per_minute : ℕ
invite_frames_per_minute = 30

abbrev pub sub_frames_per_minute : ℕ
sub_frames_per_minute = 300

abbrev pub recon_frames_per_minute : ℕ
recon_frames_per_minute = 600

abbrev pub blob_frames_per_minute : ℕ
blob_frames_per_minute = 120

abbrev pub drop_frames_per_minute : ℕ
drop_frames_per_minute = 30

abbrev pub max_key_package_fetch : ℕ
max_key_package_fetch = 8

pub data WriteMode : Type 0 where
  full read_only : WriteMode

pub data LiveMode : Type 0 where
  live_on live_off : LiveMode

pub data CallMode : Type 0 where
  calls_on calls_off : CallMode

pub data AccessSetMode : Type 0 where
  enforce off : AccessSetMode

pub data MinEncryption : Type 0 where
  no_encryption mls : MinEncryption
