-- ===== src/Tests/Sets.antt =====
-- Access sets of backend/wealdrelay/src/access/mod.rs. The hash keeps its input, so that each key has
-- an entry of its own, and the check of a signature accepts.
use wealdrelay.Base.{
  ℕ, ◌≡◌, ◌≤◌, refl, arith, Bool, true, false, none, some, List, [], ◌∷◌, replicate, ok, contains,
  length,
}
use wealdrelay.Access
use wealdrelay.Access.{AccessSet, RecoveryQuorum, SignedAs, entry_hash}
use wealdrelay.Access.Codec.{decode, encode, digest}
use wealdrelay.Access.RoundTrip.{access_set_back}
use wealdrelay.Access.Judge.{Prior, Probation, Effects, judge, quorum_confirms, quorum_message}
use wealdrelay.Access.Judge.Follows.{Follows, judge-Follows, judge_entries}
use wealdrelay.Access.Judge.Rotation.{Rotates, judge-Rotates}
use wealdrelay.Access.Judge.Quorum.{Signers, carried_sigs, quorum_confirms_sound}

abbrev id : List ℕ → List ℕ
id xs = xs

abbrev accepts : List ℕ → List ℕ → List ℕ → Bool
accepts key message sig = true

-- The hash that a relay with one answer would have.
abbrev zeros : List ℕ → List ℕ
zeros xs = replicate 32 0

abbrev key : ℕ → List ℕ
key n = replicate 32 n

abbrev sig : List ℕ
sig = replicate 64 9

-- The set before: device 1 is the authorizer, key 2 the recovery key.
abbrev prior : Prior
prior = record {
  workspace = key 50;
  version = 4;
  digest = key 60;
  entries = key 1 ∷ key 2 ∷ [];
  authorizers = key 1 ∷ [];
  recovery = key 2 ∷ [];
  quorum = none;
}

-- Key 2 brings in device 3 and its successor 4.
abbrev rotation : AccessSet
rotation = record {
  workspace = key 50;
  version = 5;
  prev_hash = key 60;
  issued_at = 7;
  entries = key 1 ∷ key 3 ∷ key 4 ∷ [];
  authorizers = key 1 ∷ key 3 ∷ [];
  recovery = key 4 ∷ [];
  quorum = none;
  pending = [];
  signer = key 2;
  sig = sig;
}

abbrev rotated : SignedAs × Effects
rotated = (
  Access.recovery,
  record {
    opens_probation = some (record { device = key 3; introduced_at = 5; pending = [] });
    clears_probation = [];
    removed = key 2 ∷ [];
  },
)

-- The authorizer takes key 3 in.
abbrev addition : AccessSet
addition = record {
  workspace = key 50;
  version = 5;
  prev_hash = key 60;
  issued_at = 7;
  entries = key 1 ∷ key 2 ∷ key 3 ∷ [];
  authorizers = key 1 ∷ [];
  recovery = key 2 ∷ [];
  quorum = some (record { threshold = 1; keys = key 5 ∷ []; sigs = [] });
  pending = [];
  signer = key 1;
  sig = sig;
}

abbrev added : SignedAs × Effects
added = (
  Access.authorizer,
  record { opens_probation = none; clears_probation = key 3 ∷ []; removed = [] },
)

-- Device 3 is on probation.
abbrev probations : List Probation
probations = record { device = key 3; introduced_at = 4; pending = [] } ∷ []

rotation_ok : judge id accepts rotation (some prior) [] [] false ≡ ok rotated
rotation_ok = unfold judge in refl

judge-Rotates_example :
    (false ≡ false)
    × ((successor : List ℕ) × (replacement : List ℕ) × Rotates id accepts rotation prior []
          successor replacement
        × (rotated.1.opens_probation
            ≡ some (record {
              device = replacement;
              introduced_at = rotation.version;
              pending = rotation.pending;
            }))
        × (rotated.1.clears_probation ≡ []))
judge-Rotates_example =
    judge-Rotates id accepts rotation prior [] [] false rotated rotation_ok
      (unfold contains in refl)

judge-Follows_example : Follows id accepts rotation prior
judge-Follows_example = judge-Follows id accepts rotation prior [] [] false rotated rotation_ok

judge_entries_example : contains (entry_hash id (key 3) []) rotation.entries ≡ true
judge_entries_example =
    judge_entries id accepts rotation (some prior) [] [] false rotated (key 3) rotation_ok
      (unfold contains in refl)

access_set_back_example : decode (encode addition) ≡ ok addition
access_set_back_example = access_set_back addition (record {
  workspace_fits = refl;
  version_fits = omega arith;
  prev_fits = refl;
  issued_fits = omega arith;
  entries_fit = (omega arith, (refl, (refl, (refl, tt))));
  authorizers_fit = (omega arith, (refl, tt));
  recovery_fit = (omega arith, (refl, tt));
  quorum_fits = (omega arith, (omega arith, (refl, tt)), omega arith, tt);
  pending_fit = (omega arith, tt);
  signer_fits = refl;
  sig_fits = refl;
})

-- A set that carries one confirmation, by key 5.
abbrev confirmed_set : AccessSet
confirmed_set = record addition {
  quorum =
      some (record {
        threshold = 1;
        keys = key 5 ∷ [];
        sigs = record { key = key 5; sig = sig } ∷ [];
      });
}

abbrev configured : RecoveryQuorum
configured = record { threshold = 1; keys = key 5 ∷ []; sigs = [] }

quorum_confirms_sound_example :
    (who : List (List ℕ)) × Signers accepts configured.keys
      (quorum_message zeros (digest zeros confirmed_set) (key 3))
      (carried_sigs confirmed_set.quorum)
      who
    × (configured.threshold ≤ length who)
quorum_confirms_sound_example =
    quorum_confirms_sound zeros accepts confirmed_set configured (key 3)
      (unfold quorum_confirms in refl)
