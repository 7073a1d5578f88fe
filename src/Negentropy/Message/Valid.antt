-- ===== src/Negentropy/Message/Valid.antt =====
-- The messages of backend/wealdrelay/src/negentropy/mod.rs that its decoder wants.
use mathlib.Core.Path.{subst}
use wealdrelay.Base.{
  ℕ, ◌≤◌, ◌≡◌, refl, sym, false, Option, none, some, List, [], ◌∷◌, ◌++◌, length, All, IsU64,
}
use wealdrelay.Negentropy.Items.{ContentId}
use wealdrelay.Negentropy.Ids.{Ascends}
use wealdrelay.Negentropy.Message.{
  Mode, skip, fingerprinted, id_list, Range, Message, infinity, max_ranges, max_ids_per_range,
  is_not_above,
}

abbrev pub IsId : ContentId → Type 0
IsId id = length id ≡ 32

abbrev pub IsMode : Mode → Type 0
IsMode skip = Unit {0}
IsMode (fingerprinted f) = IsId f
IsMode (id_list ids) = (length ids ≤ max_ids_per_range) × All IsId ids × Ascends none ids

abbrev pub IsRange : Range → Type 0
IsRange r = IsU64 r.upper × IsMode r.mode

-- Upper bounds that rise strictly behind `previous`, the last of them `end`.
abbrev pub Reaches : Option ℕ → ℕ → List Range → Type 0
Reaches previous end [] = previous ≡ some end
Reaches previous end (r ∷ rs) =
    (is_not_above previous r.upper ≡ false) × Reaches (some r.upper) end rs

pub record IsValid (m : Message) : Type 0 where
  pub few : length m.ranges ≤ max_ranges
  pub each : All IsRange m.ranges
  pub cover : Reaches none infinity m.ranges

pub Reaches-append :
    (previous : Option ℕ) (middle end : ℕ) (xs ys : List Range)
    → Reaches previous middle xs
    → Reaches (some middle) end ys
    → Reaches previous end (xs ++ ys)
Reaches-append previous middle end [] ys h k = subst (λ p. Reaches p end ys) (sym h) k
Reaches-append previous middle end (x ∷ xs) ys h k =
    (h.0, Reaches-append (some x.upper) middle end xs ys h.1 k)

-- What is above a bound is above no bound at all.
pub Reaches-none :
    (low end : ℕ) (r : Range) (rs : List Range)
    → Reaches (some low) end (r ∷ rs)
    → Reaches none end (r ∷ rs)
Reaches-none low end r rs h = (refl, h.1)
