-- ===== src/Tests/Connections.antt =====
-- Connections of backend/wealdrelay/src/session.rs, at a full relay and at a read-only one.
use wealdrelay.Base.{ℕ, ◌≡◌, ◌≤◌, ◌*◌, refl, arith, false, true, List, [], ◌∷◌, replicate}
use wealdrelay.Frame.Body
use wealdrelay.Session.Limits.{WriteMode, full, read_only, live_on, calls_on, enforce, mls}
use wealdrelay.Session.Meter.{State, Session, Config, Meter, new, budget}
use wealdrelay.Session.Handle.{handle}
use wealdrelay.Session.Spec.{legal, hands_write, charged, ceiling}
use wealdrelay.Session.Protocol.{handle-legal, handle-read_only}
use wealdrelay.Session.Charges.{handle-charges}
use wealdrelay.Session.Rate.{Arrival, handed_over, handed_over-bound}
use wealdrelay.Session.WellFormed.{IsWellFormed}
use wealdrelay.Session.Runs.{
  Event, frame, accepts, after, challenges_spent, reached-IsWellFormed, challenges_spent-once,
}

-- A hash that keeps nothing of what it reads.
abbrev constant : List ℕ → List ℕ
constant xs = replicate 32 7

abbrev secret : List ℕ
secret = replicate 32 1

abbrev config : WriteMode → Config
config mode = record {
  min_encryption = mls;
  write_mode = mode;
  access_set = enforce;
  live = live_on;
  calls = calls_on;
}

abbrev group : List ℕ
group = replicate 32 3

-- A connection that authenticates, sends and subscribes.
abbrev events : List Event
events =
    frame (Body.connect 4 (group ∷ []) 1_000) 1_000
    ∷ frame (Body.auth (replicate 32 2) (replicate 64 5)) 1_100
    ∷ accepts 8
    ∷ frame (Body.send (1 ∷ [])) 1_200
    ∷ frame (Body.sub group 0) 1_300
    ∷ []

-- The connection once it is ready.
abbrev open_session : WriteMode → Session
open_session mode = record (new (config mode) 0 []) { state = State.ready }

reached-IsWellFormed_example : IsWellFormed (after constant secret (new (config full) 0 []) events)
reached-IsWellFormed_example = reached-IsWellFormed constant secret (config full) 0 [] events

challenges_spent-once_example : challenges_spent constant secret (new (config full) 0 []) events ≤ 1
challenges_spent-once_example = challenges_spent-once constant secret (config full) 0 [] events

handle-legal_example :
    legal
      (open_session full).state
      (handle constant secret (open_session full) (Body.sub group 0) 5).1
      (handle constant secret (open_session full) (Body.sub group 0) 5).0.state
    ≡ true
handle-legal_example = handle-legal constant secret (open_session full) (Body.sub group 0) 5

handle-read_only_example :
    hands_write (handle constant secret (open_session read_only) (Body.wrap (1 ∷ [])) 5).1 ≡ false
handle-read_only_example =
    handle-read_only constant secret (open_session read_only) (Body.wrap (1 ∷ [])) 5
      (unfold new in refl)

handle-charges_example :
    charged
      (open_session full)
      Meter.recon
      (handle constant secret (open_session full) (Body.recon group []) 5).1
      5
    ≡ (
      budget Meter.recon (handle constant secret (open_session full) (Body.recon group []) 5).0,
      true,
    )
handle-charges_example =
    handle-charges constant secret (open_session full) (Body.recon group []) 5 Meter.recon

abbrev arrivals : List Arrival
arrivals =
    record { frame = Body.sub group 0; now = 10 }
    ∷ record { frame = Body.sub group 7; now = 20 }
    ∷ []

handed_over-bound_example :
    handed_over constant secret Meter.sub (open_session full) arrivals
    ≤ 2 * ceiling (open_session full) Meter.sub
handed_over-bound_example =
    handed_over-bound constant secret arrivals Meter.sub (open_session full) 0
      (unfold new budget in omega arith) refl
