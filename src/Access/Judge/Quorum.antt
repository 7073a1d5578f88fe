-- ===== src/Access/Judge/Quorum.antt =====
-- backend/wealdrelay/src/access/mod.rs: what a quorum's confirmation takes.
use wealdrelay.Base.{
  ℕ, ◌≤◌, ◌≡◌, arith, Bool, true, false, not, ◌&&◌, ◌||◌, Option, none, some, List, [], ◌∷◌, length,
  All, bytes_eq, bytes_eq_refl, contains, Once, leb→le, Bool-cases, inl, inr,
}
use wealdrelay.Access.{AccessSet, RecoveryQuorum, QuorumSignature, verify}
use wealdrelay.Access.Codec.{digest}
use wealdrelay.Access.Judge.{confirmed, enough_signed, quorum_confirms, quorum_message}

-- Whether one of these signatures is by `key`, and verifies over the message.
unfoldable pub has_signed :
    (List ℕ → List ℕ → List ℕ → Bool) → List ℕ → List QuorumSignature → List ℕ → Bool
has_signed strict message [] key = false
has_signed strict message (s ∷ rest) key =
    (bytes_eq s.key key && verify strict s.key message s.sig) || has_signed strict message rest key

abbrev pub carried_sigs : Option RecoveryQuorum → List QuorumSignature
carried_sigs none = []
carried_sigs (some q) = q.sigs

-- A list of keys, each once, each configured, each with a signature that verifies.
pub record Signers (strict : List ℕ → List ℕ → List ℕ → Bool) (keys : List (List ℕ))
    (message : List ℕ) (sigs : List QuorumSignature) (who : List (List ℕ)) : Type 0 where
  pub once : Once who
  pub configured : All (λ k. contains k keys ≡ true) who
  pub signed : All (λ k. has_signed strict message sigs k ≡ true) who

module _ (blake3 : List ℕ → List ℕ) (strict : List ℕ → List ℕ → List ℕ → Bool) where
  -- The loop, started from keys that have signed.
  confirmed-Signers :
      (keys : List (List ℕ)) (message : List ℕ) (sigs rest : List QuorumSignature)
      (seen : List (List ℕ))
      → ((k : List ℕ)
          → has_signed strict message rest k ≡ true
          → has_signed strict message sigs k ≡ true)
      → Signers strict keys message sigs seen
      → Signers strict keys message sigs (confirmed blake3 strict keys message rest seen)
  unfolding confirmed has_signed
  confirmed-Signers keys message sigs [] seen within h = h
  confirmed-Signers keys message sigs (s ∷ rest) seen within h =
      let within' : (k : List ℕ)
          → has_signed strict message rest k ≡ true
          → has_signed strict message sigs k ≡ true =
        λ k e. within k (ground arith) in
      let skipped = confirmed-Signers keys message sigs rest seen within' h in
      elim (Bool-cases (not (contains s.key keys) || contains s.key seen)) [
        | inl e ↦ rw e skipped
        | inr e ↦ elim (Bool-cases (verify strict s.key message s.sig)) [
          | inr bad ↦ rw (e, bad) skipped
          | inl good ↦
              rw (e, good)
                (confirmed-Signers keys message sigs rest (s.key ∷ seen) within' (record {
                  once = (ground arith, h.once);
                  configured = (ground arith, h.configured);
                  signed = (within s.key (ground (arith, bytes_eq_refl s.key)), h.signed);
                }))
        ]
      ]

  enough_signed-Signers :
      (a : AccessSet) (configured : RecoveryQuorum) (replacement : List ℕ)
      (sigs : List QuorumSignature)
      → enough_signed blake3 strict a configured replacement sigs ≡ true
      → (who : List (List ℕ)) × Signers strict configured.keys
          (quorum_message blake3 (digest blake3 a) replacement)
          sigs
          who
        × (configured.threshold ≤ length who)
  unfolding enough_signed
  enough_signed-Signers a configured replacement [] h = cc
  enough_signed-Signers a configured replacement (s ∷ rest) h =
      let message = quorum_message blake3 (digest blake3 a) replacement in
      (
        _,
        confirmed-Signers configured.keys message (s ∷ rest) (s ∷ rest) [] (λ k e. e)
            (record { once = tt; configured = tt; signed = tt }),
        leb→le _ _ h,
      )

  carried-Signers :
      (a : AccessSet) (configured : RecoveryQuorum) (replacement : List ℕ)
      (quorum : Option RecoveryQuorum)
      → (elim quorum [
        | none ↦ false
        | some q ↦ enough_signed blake3 strict a configured replacement q.sigs
      ])
        ≡ true
      → (who : List (List ℕ)) × Signers strict configured.keys
          (quorum_message blake3 (digest blake3 a) replacement)
          (carried_sigs quorum)
          who
        × (configured.threshold ≤ length who)
  carried-Signers a configured replacement none h = cc
  carried-Signers a configured replacement (some q) h =
      enough_signed-Signers a configured replacement q.sigs h

  -- When `quorum_confirms` says yes there are at least as many keys as the configured threshold,
  -- each once and each configured, with a signature in the set that verifies over the confirmation
  -- of this set and this entry.
  pub quorum_confirms_sound :
      (a : AccessSet) (configured : RecoveryQuorum) (replacement : List ℕ)
      → quorum_confirms blake3 strict a configured replacement ≡ true
      → (who : List (List ℕ)) × Signers strict configured.keys
          (quorum_message blake3 (digest blake3 a) replacement)
          (carried_sigs a.quorum)
          who
        × (configured.threshold ≤ length who)
  unfolding quorum_confirms
  quorum_confirms_sound a configured replacement h =
      carried-Signers a configured replacement a.quorum h
