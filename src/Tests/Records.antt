-- ===== src/Tests/Records.antt =====
-- A record of backend/weald-mls/src/agent_cbor.rs with two keys.
use wealdrelay.Base.{ℕ, refl, none, List, [], ◌∷◌}
use wealdrelay.AgentCbor.{skip_item}
use wealdrelay.AgentCbor.Bound.{Walks, skip_item-Walks}
use wealdrelay.AgentCbor.Slots.{Slots, schema_map, Ascends, Found, schema_map-Ascends}

-- { 1: 5, 3: [h'09', null] }
abbrev record_bytes : List ℕ
record_bytes = 162 ∷ 1 ∷ 5 ∷ 3 ∷ 130 ∷ 65 ∷ 9 ∷ 246 ∷ []

abbrev slots : Slots
slots = (1, 5 ∷ []) ∷ (3, 130 ∷ 65 ∷ 9 ∷ 246 ∷ []) ∷ []

skip_item-Walks_example : Walks record_bytes (skip_item record_bytes)
skip_item-Walks_example = skip_item-Walks record_bytes

schema_map-Ascends_example : Ascends (1 ∷ 2 ∷ 3 ∷ []) none slots × Found slots slots
schema_map-Ascends_example =
    schema_map-Ascends (1 ∷ 2 ∷ 3 ∷ []) record_bytes slots [] (unfold schema_map in refl)
