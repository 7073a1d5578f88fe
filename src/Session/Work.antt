-- ===== src/Session/Work.antt =====
-- backend/wealdrelay/src/session.rs: what a session hands to the rest of the relay, the class and the
-- ceiling of each kind of it, and what a session answers.
use wealdrelay.Base.{ℕ, Option, none, some, List}
use wealdrelay.Frame.Body.{Frame, KeysBody, WakeBody, publish, register, clear}
use wealdrelay.Calls.{CallKind, call_frames_per_minute}
use wealdrelay.Session.Limits.{
  live_frames_per_minute, keys_frames_per_minute, wake_frames_per_minute, join_frames_per_minute,
  handshake_frames_per_minute, access_frames_per_minute, wrap_frames_per_minute,
  invite_frames_per_minute, sub_frames_per_minute, recon_frames_per_minute, blob_frames_per_minute,
  drop_frames_per_minute,
}

pub data Work : Type 0 where
  authenticate : List ℕ → List ℕ → List ℕ → Work
  accept : List ℕ → Work
  subscribe : List ℕ → ℕ → Work
  reconcile : List ℕ → List ℕ → Work
  rotate_access_set : List ℕ → Work
  blob_ticket : List ℕ → Work
  drop_before : List ℕ → Work
  publish_wrap : List ℕ → Work
  redeem : List ℕ → Work
  administer_invite : List ℕ → Work
  publish_handshake : List ℕ → List ℕ → Work
  publish_live : List ℕ → ℕ → List ℕ → Work
  key_packages : KeysBody → Work
  wake_registration : WakeBody → Work
  publish_call : List ℕ → List ℕ → ℕ → CallKind → List ℕ → Work
  publish_media : List ℕ → List ℕ → ℕ → List ℕ → Work

pub data Reaction : Type 0 where
  reply : List Frame → Reaction
  reply_and_close : List Frame → Reaction
  defer : Work → Reaction

pub data Durability : Type 0 where
  ephemeral read write : Durability

pub data WriteRefusal : Type 0 where
  not_a_write frame_table handler served_while_quiesced : WriteRefusal

pub record WorkPolicy : Type 0 where
  pub durability : Durability
  pub frames_per_minute : Option ℕ
  pub write_refusal : WriteRefusal

abbrev pub row : Durability → Option ℕ → WriteRefusal → WorkPolicy
row durability frames refusal = record {
  durability = durability;
  frames_per_minute = frames;
  write_refusal = refusal;
}

unfoldable pub policy : Work → WorkPolicy
policy (authenticate _ _ _) = row read none not_a_write
policy (accept _) = row write none frame_table
policy (subscribe _ _) = row read (some sub_frames_per_minute) not_a_write
policy (reconcile _ _) = row read (some recon_frames_per_minute) not_a_write
policy (rotate_access_set _) = row write (some access_frames_per_minute) frame_table
policy (blob_ticket _) = row write (some blob_frames_per_minute) handler
policy (drop_before _) = row write (some drop_frames_per_minute) frame_table
policy (publish_wrap _) = row write (some wrap_frames_per_minute) frame_table
policy (redeem _) = row write (some join_frames_per_minute) served_while_quiesced
policy (administer_invite _) = row write (some invite_frames_per_minute) frame_table
policy (publish_handshake _ _) = row write (some handshake_frames_per_minute) frame_table
policy (publish_live _ _ _) = row ephemeral (some live_frames_per_minute) not_a_write
policy (key_packages (publish _)) = row write (some keys_frames_per_minute) frame_table
policy (key_packages _) = row read (some keys_frames_per_minute) not_a_write
policy (wake_registration (register _ _ _)) = row write (some wake_frames_per_minute) frame_table
policy (wake_registration clear) = row write (some wake_frames_per_minute) frame_table
policy (wake_registration _) = row read (some wake_frames_per_minute) not_a_write
policy (publish_call _ _ _ _ _) = row ephemeral (some call_frames_per_minute) not_a_write
policy (publish_media _ _ _ _) = row ephemeral none not_a_write
