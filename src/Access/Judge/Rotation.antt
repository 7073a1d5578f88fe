-- ===== src/Access/Judge/Rotation.antt =====
-- backend/wealdrelay/src/access/mod.rs: a rotation that a recovery key signs.
use wealdrelay.Base.{
  All, ◌≢◌, bytes_eq_refl, ℕ, ◌≡◌, ◌∙◌, ap, arith, Bool, true, false, not, ◌&&◌, ◌||◌, some, List,
  [], ◌∷◌, ok, bytes_eq, bytes_eq_sound, contains, missing, all_in, contains-missing, all_in_sound,
  lists_eq_sound, sort, dedup, contains-sort, contains-dedup, Result-cases, List-cases, inl, inr,
}
use wealdrelay.Access.{AccessSet, SignedAs, entry_hash}
use wealdrelay.Access.Judge.{
  Prior, Probation, Effects, all_are, is_entry_of, check_pins, adds_exactly, rotate_to, rotate_key,
  judge_rotation, judge_next, judge,
}
use wealdrelay.Access.Judge.Follows.{judge_next-ok}

module _ (blake3 : List ℕ → List ℕ) (strict : List ℕ → List ℕ → List ℕ → Bool) where
  -- One device and one recovery key come in, the signer's key goes out, and nothing else changes but
  -- the entries of these.
  pub record Rotates (a : AccessSet) (prior : Prior) (salt : List ℕ)
      (successor replacement : List ℕ) : Type 0 where
    pub authorizers :
        (g : List ℕ)
        → contains g a.authorizers ≡ (contains g prior.authorizers || bytes_eq replacement g)
    pub recovery_keys :
        (g : List ℕ)
        → contains g a.recovery
          ≡ ((contains g prior.recovery && not (bytes_eq a.signer g)) || bytes_eq successor g)
    pub new_entries :
        (g : List ℕ)
        → (contains g a.entries && not (contains g prior.entries)) ≡ (
            bytes_eq (entry_hash blake3 successor salt) g
            || bytes_eq (entry_hash blake3 replacement salt) g)
    pub old_entries :
        (g : List ℕ)
        → contains g prior.entries ≡ true
        → contains g a.entries ≡ false
        → g ≡ entry_hash blake3 a.signer salt
    pub pins :
        (g : List ℕ)
        → contains g a.pending ≡ true
        → (contains g prior.entries ≡ true)
          × All (λ key. entry_hash blake3 key salt ≢ g) prior.authorizers

  all_are_sound :
      (own g : List ℕ) (xs : List (List ℕ))
      → all_are blake3 strict own xs ≡ true
      → contains g xs ≡ true
      → g ≡ own
  unfolding all_are contains
  all_are_sound own g [] h k = cc
  all_are_sound own g (x ∷ xs) h k =
      ground (arith, bytes_eq_sound x own, bytes_eq_sound x g, all_are_sound own g xs)

  no_entry_of :
      (salt g : List ℕ) (keys : List (List ℕ))
      → is_entry_of blake3 strict salt g keys ≡ false
      → All (λ key. entry_hash blake3 key salt ≢ g) keys
  unfolding is_entry_of
  no_entry_of salt g [] h = tt
  no_entry_of salt g (key ∷ keys) h = (
    λ same. let bad = rw (same, bytes_eq_refl g) at h in cc,
    no_entry_of salt g keys (ground arith),
  )

  check_pins_sound :
      (prior : Prior) (salt g : List ℕ) (pending : List (List ℕ))
      → check_pins blake3 strict prior salt pending ≡ ok tt
      → contains g pending ≡ true
      → (contains g prior.entries ≡ true)
        × (is_entry_of blake3 strict salt g prior.authorizers ≡ false)
  unfolding check_pins contains
  check_pins_sound prior salt g [] h k = cc
  check_pins_sound prior salt g (x ∷ xs) h k =
      ground (arith, bytes_eq_sound x g, check_pins_sound prior salt g xs)

  adds_exactly_sound :
      (a : AccessSet) (prior : Prior) (salt successor replacement g : List ℕ)
      → adds_exactly blake3 strict a prior salt successor replacement ≡ true
      → (contains g a.entries && not (contains g prior.entries)) ≡ (
          bytes_eq (entry_hash blake3 successor salt) g
          || bytes_eq (entry_hash blake3 replacement salt) g)
  unfolding adds_exactly contains
  adds_exactly_sound a prior salt successor replacement g h =
      let added = missing a.entries prior.entries in
      let two = entry_hash blake3 successor salt ∷ entry_hash blake3 replacement salt ∷ [] in
      let same =
        ap (λ xs. contains g xs) (lists_eq_sound (dedup (sort added)) (dedup (sort two)) h) in
      ground (
        arith,
        same,
        contains-dedup g (sort added),
        contains-sort g added,
        contains-missing g a.entries prior.entries,
        contains-dedup g (sort two),
        contains-sort g two,
      )

  -- A list whose new members are one key.
  one_new :
      (g k : List ℕ) (xs ys : List (List ℕ))
      → missing xs ys ≡ k ∷ []
      → (contains g xs && not (contains g ys)) ≡ bytes_eq k g
  unfolding contains
  one_new g k xs ys e = ground (arith, contains-missing g xs ys, ap (λ zs. contains g zs) e)

  rotate_to-ok :
      (a : AccessSet) (prior : Prior) (salt : List ℕ) (removed : List (List ℕ))
      (successor replacement : List ℕ) (v : SignedAs × Effects)
      → rotate_to blake3 strict a prior salt removed successor replacement ≡ ok v
      → (adds_exactly blake3 strict a prior salt successor replacement ≡ true)
        × (all_in prior.authorizers a.authorizers ≡ true)
        × (check_pins blake3 strict prior salt a.pending ≡ ok tt)
        × (v.1.opens_probation
            ≡ some
                (record { device = replacement; introduced_at = a.version; pending = a.pending }))
        × (v.1.clears_probation ≡ [])
  unfolding rotate_to
  rotate_to-ok a prior salt removed successor replacement v h =
      elim (Result-cases (check_pins blake3 strict prior salt a.pending)) [
        | inl (_, e) ↦ ground arith
        | inr (_, e) ↦ ground arith
      ]

  -- The shape of an accepted rotation: its two keys, and what the checks before the last found.
  pub record Passed (a : AccessSet) (prior : Prior) (salt : List ℕ) (recently : Bool)
      (v : SignedAs × Effects) : Type 0 where
    pub successor : List ℕ
    pub replacement : List ℕ
    pub new_key : missing a.recovery prior.recovery ≡ successor ∷ []
    pub new_device : missing a.authorizers prior.authorizers ≡ replacement ∷ []
    pub old_key : missing prior.recovery a.recovery ≡ a.signer ∷ []
    pub own_entry :
        all_are blake3 strict (entry_hash blake3 a.signer salt) (missing prior.entries a.entries)
        ≡ true
    pub first_today : recently ≡ false
    pub rest :
        rotate_to blake3 strict a prior salt (missing prior.entries a.entries) successor replacement
        ≡ ok v

  rotate_key-Passed :
      (a : AccessSet) (prior : Prior) (salt : List ℕ) (recently : Bool) (successor : List ℕ)
      (v : SignedAs × Effects)
      → recently ≡ false
      → missing a.recovery prior.recovery ≡ successor ∷ []
      → rotate_key blake3 strict a prior salt (missing prior.entries a.entries) successor ≡ ok v
      → Passed a prior salt recently v
  unfolding rotate_key
  rotate_key-Passed a prior salt recently successor v n key h =
      elim (List-cases (missing a.authorizers prior.authorizers)) [
        | inl e ↦ ground arith
        | inr (replacement, [], e) ↦ record {
          successor = successor;
          replacement = replacement;
          new_key = key;
          new_device = e;
          old_key =
              lists_eq_sound (missing prior.recovery a.recovery) (a.signer ∷ []) (ground arith);
          own_entry = ground arith;
          first_today = n;
          rest = ground arith;
        }
        | inr (replacement, x ∷ xs, e) ↦ ground arith
      ]

  judge_rotation-Passed :
      (a : AccessSet) (prior : Prior) (salt : List ℕ) (recently : Bool) (v : SignedAs × Effects)
      → judge_rotation blake3 strict a prior salt (missing prior.entries a.entries) recently ≡ ok v
      → Passed a prior salt recently v
  unfolding judge_rotation
  judge_rotation-Passed a prior salt recently v h =
      elim (List-cases (missing a.recovery prior.recovery)) [
        | inl e ↦ ground arith
        | inr (successor, [], e) ↦
            rotate_key-Passed a prior salt recently successor v (ground arith) e (ground arith)
        | inr (successor, x ∷ xs, e) ↦ ground arith
      ]

  Passed-Rotates :
      (a : AccessSet) (prior : Prior) (salt : List ℕ) (recently : Bool) (v : SignedAs × Effects)
      (p : Passed a prior salt recently v)
      → Rotates a prior salt p.successor p.replacement
  Passed-Rotates a prior salt recently v p =
      let (adds, keeps, pinned, _, _) =
        rotate_to-ok a prior salt (missing prior.entries a.entries) p.successor p.replacement v
          p.rest in
      record {
        authorizers = λ g. ground (
          arith,
          one_new g p.replacement a.authorizers prior.authorizers p.new_device,
          all_in_sound g prior.authorizers a.authorizers keeps,
        );
        recovery_keys = λ g. ground (
          arith,
          one_new g p.successor a.recovery prior.recovery p.new_key,
          one_new g a.signer prior.recovery a.recovery p.old_key,
        );
        new_entries = λ g. adds_exactly_sound a prior salt p.successor p.replacement g adds;
        old_entries = λ g k l.
            all_are_sound (entry_hash blake3 a.signer salt) g (missing prior.entries a.entries)
              p.own_entry (contains-missing g prior.entries a.entries ∙ ground arith);
        pins = λ g k.
            let (carried, free) = check_pins_sound prior salt g a.pending pinned k in
            (carried, no_entry_of salt g prior.authorizers free);
      }

  -- When `judge` accepts a set behind a prior one and the signer is no prior authorizer, no
  -- rotation by the same key was recent, and there are a successor key and a replacement device
  -- such that the authorizers are the prior ones and the replacement, the recovery keys are the
  -- prior ones without the signer and with the successor, the new entries are exactly those of
  -- these two keys, no entry but the signer's is removed, each pinned entry was carried before and
  -- belongs to no prior authorizer, and the effects put the replacement on probation and clear
  -- none.
  pub judge-Rotates :
      (a : AccessSet) (prior : Prior) (salt : List ℕ) (probations : List Probation)
      (recently : Bool) (v : SignedAs × Effects)
      → judge blake3 strict a (some prior) salt probations recently ≡ ok v
      → contains a.signer prior.authorizers ≡ false
      → (recently ≡ false)
        × ((successor : List ℕ) × (replacement : List ℕ) × Rotates a prior salt successor
              replacement
            × (v.1.opens_probation
                ≡ some (record {
                  device = replacement;
                  introduced_at = a.version;
                  pending = a.pending;
                }))
            × (v.1.clears_probation ≡ []))
  unfolding judge_next
  judge-Rotates a prior salt probations recently v h k =
      let next = judge_next-ok blake3 strict a prior salt probations recently v h in
      let p = judge_rotation-Passed a prior salt recently v (ground arith) in
      let (_, _, _, opens, clears_none) =
        rotate_to-ok a prior salt (missing prior.entries a.entries) p.successor p.replacement v
          p.rest in
      (
        p.first_today,
        (p.successor, p.replacement, Passed-Rotates a prior salt recently v p, opens, clears_none),
      )
