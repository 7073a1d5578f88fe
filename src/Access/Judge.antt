-- ===== src/Access/Judge.antt =====
-- backend/wealdrelay/src/access/mod.rs: whether a signed access set follows the one before it.
pub mod Quorum
pub mod Follows
pub mod Ordinary
pub mod Rotation
use wealdrelay.Base.{
  ℕ, ◌+◌, ◌%◌, ◌^◌, Bool, true, false, not, ◌&&◌, ◌||◌, Option, none, some, List, [], ◌∷◌, ◌++◌,
  leb, ◌==◌, if◌then◌else◌, length, replicate, Result, ok, err, bytes_eq, contains, missing, all_in,
  any_in, sort, dedup, lists_eq,
}
use wealdrelay.Access.{
  AccessSet, RecoveryQuorum, QuorumSignature, AccessError, SignedAs, authorizer, recovery,
  version_not_next, prev_hash_mismatch, signer_not_permitted, bad_signature, would_strand_authority,
  last_authorizer, last_recovery_principal, rotation_shape, name_pending, rotate_own_key,
  one_successor, own_key_only, remove_own_entry, one_replacement, add_two_entries,
  remove_no_authorizer, pin_prior_entries, pin_no_authorizer, rotation_rate_limited,
  probation_exceeded, workspace_mismatch, entry_hash, verify, hash_bytes,
}
use wealdrelay.Access.Codec.{digest_input, digest}
use wealdrelay.Access.Shape.{also, check_shape, principals_are_entries}

pub record Prior : Type 0 where
  pub workspace : List ℕ
  pub version : ℕ
  pub digest : List ℕ
  pub entries : List (List ℕ)
  pub authorizers : List (List ℕ)
  pub recovery : List (List ℕ)
  pub quorum : Option RecoveryQuorum

pub record Probation : Type 0 where
  pub device : List ℕ
  pub introduced_at : ℕ
  pub pending : List (List ℕ)

pub record Effects : Type 0 where
  pub opens_probation : Option Probation
  pub clears_probation : List (List ℕ)
  pub removed : List (List ℕ)

abbrev pub Verdict : Type 0
Verdict = Result AccessError (SignedAs × Effects)

-- The bytes "weald recovery-confirm v1".
abbrev pub quorum_confirm_label : List ℕ
quorum_confirm_label =
    119 ∷ 101 ∷ 97 ∷ 108 ∷ 100 ∷ 32 ∷ 114 ∷ 101 ∷ 99 ∷ 111 ∷ 118 ∷ 101 ∷ 114 ∷ 121 ∷ 45 ∷ 99 ∷ 111
    ∷ 110 ∷ 102 ∷ 105 ∷ 114 ∷ 109 ∷ 32 ∷ 118 ∷ 49 ∷ []

unfoldable pub quorum_message : (List ℕ → List ℕ) → List ℕ → List ℕ → List ℕ
quorum_message blake3 digest replacement = blake3 (quorum_confirm_label ++ digest ++ replacement)

-- `probations.iter().find(|p| p.device == signer)`
unfoldable pub find_probation : List ℕ → List Probation → Option Probation
find_probation signer [] = none
find_probation signer (p ∷ ps) =
    if bytes_eq p.device signer then some p else find_probation signer ps

module _ (blake3 : List ℕ → List ℕ) (strict : List ℕ → List ℕ → List ℕ → Bool) where
  unfoldable pub signature_verifies : AccessSet → Bool
  unfolding digest_input verify
  signature_verifies a = verify strict a.signer (digest_input a) a.sig

  -- The loop over the signatures: the keys that confirmed, newest first.
  unfoldable pub confirmed :
      List (List ℕ) → List ℕ → List QuorumSignature → List (List ℕ) → List (List ℕ)
  unfolding contains verify
  confirmed keys message [] seen = seen
  confirmed keys message (s ∷ rest) seen =
      if not (contains s.key keys) || contains s.key seen
      then confirmed keys message rest seen
      else if verify strict s.key message s.sig
      then confirmed keys message rest (s.key ∷ seen)
      else confirmed keys message rest seen

  -- A quorum that carries no signature confirms nothing.
  unfoldable pub enough_signed : AccessSet → RecoveryQuorum → List ℕ → List QuorumSignature → Bool
  unfolding confirmed quorum_message digest
  enough_signed a configured replacement [] = false
  enough_signed a configured replacement (s ∷ rest) =
      let message = quorum_message blake3 (digest blake3 a) replacement in
      leb configured.threshold (length (confirmed configured.keys message (s ∷ rest) []))

  unfoldable pub quorum_confirms : AccessSet → RecoveryQuorum → List ℕ → Bool
  unfolding enough_signed
  quorum_confirms a configured replacement = elim a.quorum [
    | none ↦ false
    | some carried ↦ enough_signed a configured replacement carried.sigs
  ]

  -- Whether one probation is cleared by an accepted set.
  unfoldable pub clears : AccessSet → Prior → List ℕ → List Probation → Probation → Bool
  unfolding contains entry_hash find_probation quorum_confirms
  clears a prior salt probations p =
      let entry = entry_hash blake3 p.device salt in
      if bytes_eq p.device a.signer
      then false
      else if not (contains entry a.entries)
      then false
      else elim (find_probation a.signer probations) [
        | none ↦ true
        | some _ ↦ elim prior.quorum [
          | none ↦ false
          | some configured ↦ quorum_confirms a configured entry
        ]
      ]

  -- The loop over the probations, with the ones left.
  unfoldable pub cleared :
      AccessSet → Prior → List ℕ → List Probation → List Probation → List (List ℕ)
  unfolding clears
  cleared a prior salt probations [] = []
  cleared a prior salt probations (p ∷ ps) =
      let rest = cleared a prior salt probations ps in
      if clears a prior salt probations p then p.device ∷ rest else rest

  abbrev is_empty : List (List ℕ) → Bool
  is_empty [] = true
  is_empty (x ∷ xs) = false

  -- The limits on a signer that is itself on probation.
  unfoldable pub exceeds : AccessSet → Prior → List (List ℕ) → Option Probation → Bool
  unfolding all_in
  exceeds a prior removed none = false
  exceeds a prior removed (some p) =
      not (all_in removed p.pending)
      || not (all_in prior.authorizers a.authorizers)
      || not (all_in a.authorizers prior.authorizers)

  unfoldable pub judge_ordinary :
      AccessSet → Prior → List ℕ → List Probation → List (List ℕ) → Verdict
  unfolding any_in find_probation exceeds cleared
  judge_ordinary a prior salt probations removed =
      if not (any_in prior.authorizers a.authorizers)
      then err (would_strand_authority last_authorizer)
      else if not (any_in prior.recovery a.recovery)
      then err (would_strand_authority last_recovery_principal)
      else if not (is_empty a.pending)
      then err (rotation_shape name_pending)
      else if exceeds a prior removed (find_probation a.signer probations)
      then err probation_exceeded
      else ok (
        authorizer,
        record {
          opens_probation = none;
          clears_probation = cleared a prior salt probations probations;
          removed = removed;
        },
      )

  -- `removed.iter().all(|entry| entry == own)`
  unfoldable pub all_are : List ℕ → List (List ℕ) → Bool
  all_are own [] = true
  all_are own (x ∷ xs) = bytes_eq x own && all_are own xs

  -- `authorizers.iter().any(|key| entry_hash(key, salt) == entry)`
  unfoldable pub is_entry_of : List ℕ → List ℕ → List (List ℕ) → Bool
  unfolding entry_hash
  is_entry_of salt entry [] = false
  is_entry_of salt entry (key ∷ keys) =
      bytes_eq (entry_hash blake3 key salt) entry || is_entry_of salt entry keys

  -- The loop over the pinned entries, and its answer when none is refused.
  unfoldable pub check_pins : Prior → List ℕ → List (List ℕ) → Result AccessError (Unit {0})
  unfolding contains is_entry_of
  check_pins prior salt [] = ok tt
  check_pins prior salt (entry ∷ pending) =
      if not (contains entry prior.entries)
      then err (rotation_shape pin_prior_entries)
      else if is_entry_of salt entry prior.authorizers
      then err (rotation_shape pin_no_authorizer)
      else check_pins prior salt pending

  -- What a rotation adds: the entries, sorted, are those of the successor and of the replacement.
  unfoldable pub adds_exactly : AccessSet → Prior → List ℕ → List ℕ → List ℕ → Bool
  unfolding missing sort dedup lists_eq entry_hash
  adds_exactly a prior salt successor replacement =
      lists_eq (dedup (sort (missing a.entries prior.entries)))
        (dedup (sort (entry_hash blake3 successor salt ∷ entry_hash blake3 replacement salt ∷ [])))

  -- The rest of a rotation, once its successor key and its replacement device are known.
  unfoldable pub rotate_to : AccessSet → Prior → List ℕ → List (List ℕ) → List ℕ → List ℕ → Verdict
  unfolding adds_exactly all_in check_pins
  rotate_to a prior salt removed successor replacement =
      if not (adds_exactly a prior salt successor replacement)
      then err (rotation_shape add_two_entries)
      else if not (all_in prior.authorizers a.authorizers)
      then err (rotation_shape remove_no_authorizer)
      else also (check_pins prior salt a.pending) (
          ok (
            recovery,
            record {
              opens_probation =
                  some (record {
                    device = replacement;
                    introduced_at = a.version;
                    pending = a.pending;
                  });
              clears_probation = [];
              removed = removed;
            },
          ))

  -- The checks between the two keys that a rotation names.
  unfoldable pub rotate_key : AccessSet → Prior → List ℕ → List (List ℕ) → List ℕ → Verdict
  unfolding missing lists_eq all_are entry_hash rotate_to
  rotate_key a prior salt removed successor =
      if not (lists_eq (missing prior.recovery a.recovery) (a.signer ∷ []))
      then err (rotation_shape own_key_only)
      else if not (all_are (entry_hash blake3 a.signer salt) removed)
      then err (rotation_shape remove_own_entry)
      else elim (missing a.authorizers prior.authorizers) [
        | [] ↦ err (rotation_shape one_replacement)
        | replacement ∷ more ↦
            if is_empty more
            then rotate_to a prior salt removed successor replacement
            else err (rotation_shape one_replacement)
      ]

  unfoldable pub judge_rotation : AccessSet → Prior → List ℕ → List (List ℕ) → Bool → Verdict
  unfolding contains missing rotate_key
  judge_rotation a prior salt removed rotated_recently =
      if rotated_recently
      then err rotation_rate_limited
      else if contains a.signer a.recovery
      then err (rotation_shape rotate_own_key)
      else elim (missing a.recovery prior.recovery) [
        | [] ↦ err (rotation_shape one_successor)
        | successor ∷ more ↦
            if is_empty more
            then rotate_key a prior salt removed successor
            else err (rotation_shape one_successor)
      ]

  -- The first set of a workspace.
  unfoldable pub judge_first : AccessSet → Verdict
  unfolding contains signature_verifies
  judge_first a =
      if not (a.version == 0)
      then err (version_not_next 0 a.version)
      else if not (bytes_eq a.prev_hash (replicate hash_bytes 0))
      then err prev_hash_mismatch
      else if not (contains a.signer a.authorizers)
      then err signer_not_permitted
      else if not (signature_verifies a)
      then err bad_signature
      else if not (is_empty a.pending)
      then err (rotation_shape name_pending)
      else ok (authorizer, record { opens_probation = none; clears_probation = []; removed = [] })

  -- `prior.version + 1` on a `u64`.
  abbrev next : ℕ → ℕ
  next version = (version + 1) % 2 ^ 64

  unfoldable pub judge_next : AccessSet → Prior → List ℕ → List Probation → Bool → Verdict
  unfolding contains signature_verifies missing judge_ordinary judge_rotation
  judge_next a prior salt probations rotated_recently =
      if not (a.version == next prior.version)
      then err (version_not_next (next prior.version) a.version)
      else if not (bytes_eq a.prev_hash prior.digest)
      then err prev_hash_mismatch
      else if not (bytes_eq a.workspace prior.workspace)
      then err workspace_mismatch
      else if not (contains a.signer prior.authorizers) && not (contains a.signer prior.recovery)
      then err signer_not_permitted
      else if not (signature_verifies a)
      then err bad_signature
      else let removed = missing prior.entries a.entries in
        if contains a.signer prior.authorizers
        then judge_ordinary a prior salt probations removed
        else judge_rotation a prior salt removed rotated_recently

  unfoldable pub judge : AccessSet → Option Prior → List ℕ → List Probation → Bool → Verdict
  unfolding check_shape principals_are_entries judge_first judge_next
  judge a prior salt probations rotated_recently = also (check_shape a) (
      also (principals_are_entries blake3 a salt) (elim prior [
        | none ↦ judge_first a
        | some prior ↦ judge_next a prior salt probations rotated_recently
      ]))
