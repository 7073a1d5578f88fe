-- ===== src/Session/Meter.antt =====
-- backend/wealdrelay/src/session.rs: the state of a connection, with the budget of each kind of frame.
use wealdrelay.Base.{
  ℕ, ◌-◌, Bool, true, false, Option, none, some, List, [], ◌∷◌, if◌then◌else◌, leb, bytes_eq,
}
use wealdrelay.Frame.Decode.Read.{min_protocol_version}
use wealdrelay.Calls.Media
use wealdrelay.Calls.Media.{MediaBudget}
use wealdrelay.Session.Limits.{
  join_frames_per_minute, join_frames_per_minute_reserved, WriteMode, LiveMode, CallMode,
  AccessSetMode, enforce, off, MinEncryption, no_encryption, mls,
}
use wealdrelay.Session.FrameBudget
use wealdrelay.Session.FrameBudget.{FrameBudget, charge}

pub data State : Type 0 where
  fresh challenged ready bootstrapping closed : State

-- `i64`, as the library's integers over the native numbers.
pub data ℤ : Type 0 where
  pos negsuc : ℕ → ℤ

infixl 50 ◌⊖◌
abbrev pub ◌⊖◌ : ℕ → ℕ → ℤ
a ⊖ b = if leb b a then pos (a - b) else negsuc (b - a - 1)

-- The part of `Config` that a session reads.
pub record Config : Type 0 where
  pub min_encryption : MinEncryption
  pub write_mode : WriteMode
  pub access_set : AccessSetMode
  pub live : LiveMode
  pub calls : CallMode

pub record Session : Type 0 where
  pub state : State
  pub connection_nonce : ℕ
  pub challenge : List ℕ
  pub requested : List (List ℕ)
  pub authorized_workspace : Option (List ℕ)
  pub subscribed : List (List ℕ)
  pub skew_ms : Option ℤ
  pub min_enc : ℕ
  pub source : Option (List ℕ)
  pub device_key : Option (List ℕ)
  pub write_mode : WriteMode
  pub build_digest : List ℕ
  pub access_set_enforced : Bool
  pub refuses_plaintext : Bool
  pub negotiated_version : ℕ
  pub live : LiveMode
  pub live_budget : FrameBudget
  pub keys_budget : FrameBudget
  pub wake_budget : FrameBudget
  pub handshake_budget : FrameBudget
  pub access_budget : FrameBudget
  pub wrap_budget : FrameBudget
  pub invite_budget : FrameBudget
  pub sub_budget : FrameBudget
  pub recon_budget : FrameBudget
  pub blob_budget : FrameBudget
  pub drop_budget : FrameBudget
  pub join_budget : FrameBudget
  pub join_reserved : Bool
  pub calls : CallMode
  pub call_budget : FrameBudget
  pub media_budget : MediaBudget

abbrev is_enforce : AccessSetMode → Bool
is_enforce enforce = true
is_enforce off = false

abbrev is_mls : MinEncryption → Bool
is_mls mls = true
is_mls no_encryption = false

-- `accept::floor_byte`
unfoldable pub floor_byte : MinEncryption → ℕ
floor_byte no_encryption = 0
floor_byte mls = 1

-- A new connection: the process's counter of connections and the digest of the running build are
-- arguments.
unfoldable pub new : Config → ℕ → List ℕ → Session
unfolding floor_byte
new config nonce digest = record {
  state = fresh;
  connection_nonce = nonce;
  challenge = [];
  requested = [];
  authorized_workspace = none;
  subscribed = [];
  skew_ms = none;
  min_enc = floor_byte config.min_encryption;
  source = none;
  device_key = none;
  write_mode = config.write_mode;
  build_digest = digest;
  access_set_enforced = is_enforce config.access_set;
  refuses_plaintext = is_mls config.min_encryption;
  negotiated_version = min_protocol_version;
  live = config.live;
  live_budget = FrameBudget.default;
  keys_budget = FrameBudget.default;
  wake_budget = FrameBudget.default;
  handshake_budget = FrameBudget.default;
  access_budget = FrameBudget.default;
  wrap_budget = FrameBudget.default;
  invite_budget = FrameBudget.default;
  sub_budget = FrameBudget.default;
  recon_budget = FrameBudget.default;
  blob_budget = FrameBudget.default;
  drop_budget = FrameBudget.default;
  join_budget = FrameBudget.default;
  join_reserved = false;
  calls = config.calls;
  call_budget = FrameBudget.default;
  media_budget = Media.default;
}

-- The kinds of frame that have a budget of their own.
pub data Meter : Type 0 where
  live keys wake handshake access wrap invite sub recon blob drop join call : Meter

-- The field that holds a kind's budget.
unfoldable pub budget : Meter → Session → FrameBudget
budget live s = s.live_budget
budget keys s = s.keys_budget
budget wake s = s.wake_budget
budget handshake s = s.handshake_budget
budget access s = s.access_budget
budget wrap s = s.wrap_budget
budget invite s = s.invite_budget
budget sub s = s.sub_budget
budget recon s = s.recon_budget
budget blob s = s.blob_budget
budget drop s = s.drop_budget
budget join s = s.join_budget
budget call s = s.call_budget

unfoldable pub set_budget : Meter → FrameBudget → Session → Session
set_budget live b s = record s { live_budget = b }
set_budget keys b s = record s { keys_budget = b }
set_budget wake b s = record s { wake_budget = b }
set_budget handshake b s = record s { handshake_budget = b }
set_budget access b s = record s { access_budget = b }
set_budget wrap b s = record s { wrap_budget = b }
set_budget invite b s = record s { invite_budget = b }
set_budget sub b s = record s { sub_budget = b }
set_budget recon b s = record s { recon_budget = b }
set_budget blob b s = record s { blob_budget = b }
set_budget drop b s = record s { drop_budget = b }
set_budget join b s = record s { join_budget = b }
set_budget call b s = record s { call_budget = b }

-- `self.<kind>_budget.charge(now, allowance)`
unfoldable pub spend : Meter → ℕ → Session → ℕ → Session × Bool
unfolding budget set_budget
spend m allowance s now =
    let (b, fits) = charge (budget m s) now allowance in (set_budget m b s, fits)

unfoldable pub bind_device : List ℕ → Session → Session
bind_device key s = record s { device_key = some key }

unfoldable pub bind_workspace : List ℕ → Session → Session
bind_workspace workspace s = record s { authorized_workspace = some workspace }

unfoldable pub set_source : Option (List ℕ) → Session → Session
set_source source s = record s { source = source }

unfoldable pub note_join_reserved : Session → Session
note_join_reserved s = record s { join_reserved = true }

unfoldable pub join_allowance : Session → ℕ
join_allowance s =
    if s.join_reserved then join_frames_per_minute_reserved else join_frames_per_minute

unfoldable pub drop_group : List ℕ → List (List ℕ) → List (List ℕ)
drop_group group [] = []
drop_group group (held ∷ rest) =
    if bytes_eq held group then drop_group group rest else held ∷ drop_group group rest

unfoldable pub forget_subscription : List ℕ → Session → Session
unfolding drop_group
forget_subscription group s = record s { subscribed = drop_group group s.subscribed }
