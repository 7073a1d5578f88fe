-- ===== src/Access/Judge/Ordinary.antt =====
-- backend/wealdrelay/src/access/mod.rs: a publication that an authorizer signs.
use wealdrelay.Base.{ℕ, ◌≡◌, ◌⊎◌, Bool, true, false, none, some, List, [], All, bytes_eq, contains}
use wealdrelay.Access.{AccessSet, entry_hash}
use wealdrelay.Access.Judge.{Prior, Probation, Effects, find_probation, quorum_confirms}

-- A signer on probation removes only what its rotation pinned, and changes no authorizer.
pub record Restrained (a : AccessSet) (prior : Prior) (p : Probation) : Type 0 where
  pub removes_pinned :
      (g : List ℕ)
      → contains g prior.entries ≡ true
      → contains g a.entries ≡ false
      → contains g p.pending ≡ true
  pub same_authorizers : (g : List ℕ) → contains g a.authorizers ≡ contains g prior.authorizers

module _ (blake3 : List ℕ → List ℕ) (strict : List ℕ → List ℕ → List ℕ → Bool) where
  -- Why a device leaves probation.
  pub record Clears (a : AccessSet) (prior : Prior) (salt : List ℕ) (probations : List Probation)
      (d : List ℕ) : Type 0 where
    pub another : bytes_eq d a.signer ≡ false
    pub listed : contains (entry_hash blake3 d salt) a.entries ≡ true
    pub trusted :
        (find_probation a.signer probations ≡ none)
        ⊎ ((q : _) × (prior.quorum ≡ some q)
            × (quorum_confirms blake3 strict a q (entry_hash blake3 d salt) ≡ true))

  -- An authorizer and a recovery key of the prior set stay.
  pub record Keeps (a : AccessSet) (prior : Prior) (salt : List ℕ) (probations : List Probation)
      (e : Effects) : Type 0 where
    pub an_authorizer :
        (g : List ℕ) × (contains g prior.authorizers ≡ true) × (contains g a.authorizers ≡ true)
    pub a_recovery_key :
        (g : List ℕ) × (contains g prior.recovery ≡ true) × (contains g a.recovery ≡ true)
    pub pins_nothing : a.pending ≡ []
    pub opens_nothing : e.opens_probation ≡ none
    pub restrained :
        (p : Probation) → find_probation a.signer probations ≡ some p → Restrained a prior p
    pub clears_fairly : All (Clears a prior salt probations) e.clears_probation
