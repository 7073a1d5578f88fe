-- ===== src/Access/Judge/Follows.antt =====
-- backend/wealdrelay/src/access/mod.rs: what every accepted set has, whoever signed it.
use wealdrelay.Base.{
  ℕ, ◌+◌, ◌%◌, ◌^◌, ◌≡◌, ◌∙◌, arith, Bool, true, ◌||◌, Option, some, List, [], ◌∷◌, ◌++◌, ok,
  bytes_eq_sound, contains, contains-append, inl, inr, Result-cases,
}
use wealdrelay.Access.{AccessSet, SignedAs, entry_hash}
use wealdrelay.Access.Shape.{check_shape, principals_are_entries, are_entries}
use wealdrelay.Access.Judge.{Prior, Probation, Effects, signature_verifies, judge_next, judge}

module _ (blake3 : List ℕ → List ℕ) (strict : List ℕ → List ℕ → List ℕ → Bool) where
  -- The set is the next of its chain, and a principal of the prior set signed it.
  pub record Follows (a : AccessSet) (prior : Prior) : Type 0 where
    pub next_version : a.version ≡ (prior.version + 1) % 2 ^ 64
    pub links : a.prev_hash ≡ prior.digest
    pub same_workspace : a.workspace ≡ prior.workspace
    pub verifies : signature_verifies blake3 strict a ≡ true
    pub permitted : (contains a.signer prior.authorizers || contains a.signer prior.recovery) ≡ true

  judge_next-Follows :
      (a : AccessSet) (prior : Prior) (salt : List ℕ) (probations : List Probation)
      (recently : Bool) (v : SignedAs × Effects)
      → judge_next blake3 strict a prior salt probations recently ≡ ok v
      → Follows a prior
  unfolding judge_next
  judge_next-Follows a prior salt probations recently v h =
      ground
        (arith, bytes_eq_sound a.prev_hash prior.digest, bytes_eq_sound a.workspace prior.workspace)

  are_entries_sound :
      (salt : List ℕ) (entries keys : List (List ℕ)) (key : List ℕ)
      → are_entries blake3 salt entries keys ≡ ok tt
      → contains key keys ≡ true
      → contains (entry_hash blake3 key salt) entries ≡ true
  unfolding are_entries contains
  are_entries_sound salt entries [] key h k = cc
  are_entries_sound salt entries (x ∷ xs) key h k =
      ground (arith, bytes_eq_sound x key, are_entries_sound salt entries xs key)

  -- What the checks before the judgement leave.
  judge-checked :
      (a : AccessSet) (prior : Option Prior) (salt : List ℕ) (probations : List Probation)
      (recently : Bool) (v : SignedAs × Effects)
      → judge blake3 strict a prior salt probations recently ≡ ok v
      → (check_shape a ≡ ok tt) × (principals_are_entries blake3 a salt ≡ ok tt)
  unfolding judge
  judge-checked a prior salt probations recently v h = elim (Result-cases (check_shape a)) [
    | inr (e, p) ↦ ground arith
    | inl (_, p) ↦ elim (Result-cases (principals_are_entries blake3 a salt)) [
      | inr (e, q) ↦ ground arith
      | inl (_, q) ↦ (p, q)
    ]
  ]

  pub judge_next-ok :
      (a : AccessSet) (prior : Prior) (salt : List ℕ) (probations : List Probation)
      (recently : Bool) (v : SignedAs × Effects)
      → judge blake3 strict a (some prior) salt probations recently ≡ ok v
      → judge_next blake3 strict a prior salt probations recently ≡ ok v
  unfolding judge
  judge_next-ok a prior salt probations recently v h =
      let (p, q) = judge-checked a (some prior) salt probations recently v h in rw (p, q) at h

  -- When `judge` accepts a set behind a prior one, its version is the next one (modulo 2^64), it
  -- names the prior digest and workspace, its signer is an authorizer or a recovery key of the
  -- prior set, and its signature verifies.
  pub judge-Follows :
      (a : AccessSet) (prior : Prior) (salt : List ℕ) (probations : List Probation)
      (recently : Bool) (v : SignedAs × Effects)
      → judge blake3 strict a (some prior) salt probations recently ≡ ok v
      → Follows a prior
  judge-Follows a prior salt probations recently v h =
      judge_next-Follows a prior salt probations recently v
        (judge_next-ok a prior salt probations recently v h)

  -- In a set that `judge` accepts, the salted hash of each authorizer and of each recovery key is
  -- one of the entries.
  pub judge_entries :
      (a : AccessSet) (prior : Option Prior) (salt : List ℕ) (probations : List Probation)
      (recently : Bool) (v : SignedAs × Effects) (key : List ℕ)
      → judge blake3 strict a prior salt probations recently ≡ ok v
      → (contains key a.authorizers || contains key a.recovery) ≡ true
      → contains (entry_hash blake3 key salt) a.entries ≡ true
  unfolding principals_are_entries
  judge_entries a prior salt probations recently v key h k =
      are_entries_sound salt a.entries (a.authorizers ++ a.recovery) key
        (judge-checked a prior salt probations recently v h).1
        (contains-append key a.authorizers a.recovery ∙ k)
