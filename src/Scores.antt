-- ===== src/Scores.antt =====
-- crates/tiny-io-oi/src/node.rs: the table of leader scores of a `TinyNode`.
pub mod Decay
pub mod Leader
pub mod Update
use tiny_io_oi.Prelude.{
  ℕ, ◌-◌, List, [], ◌∷◌, map, Option, none, some, Bool, true, false, ltb, ◌==◌, if◌then◌else◌, same,
}
use tiny_io_oi.Protocol.{NodeId, CoreNodeId, from_core_id}

abbrev pub Entry : Type 0
Entry = Option (CoreNodeId × ℕ)

-- The two loops of `decay_scores`.
abbrev pub decay_entry : Entry → Entry
decay_entry none = none
decay_entry (some (id, score)) = some (id, score - 1)

abbrev pub clear_entry : Entry → Entry
clear_entry none = none
clear_entry (some (id, score)) = if score == 0 then none else some (id, score)

unfoldable pub decay : List Entry → List Entry
decay scores = map clear_entry (map decay_entry scores)

-- Is there an entry of this node? Its first one is overwritten; otherwise the first empty slot is
-- filled, and with none the table stays as it is.
abbrev pub has_entry : List Entry → CoreNodeId → Bool
has_entry [] id = false
has_entry (none ∷ xs) id = has_entry xs id
has_entry (some (k, s) ∷ xs) id = let rest = has_entry xs id in if same k id then true else rest

abbrev pub overwrite : List Entry → CoreNodeId → ℕ → List Entry
overwrite [] id score = []
overwrite (none ∷ xs) id score = none ∷ overwrite xs id score
overwrite (some (k, s) ∷ xs) id score =
    let rest = overwrite xs id score in
    if same k id then some (k, score) ∷ xs else some (k, s) ∷ rest

abbrev pub fill_slot : List Entry → CoreNodeId → ℕ → List Entry
fill_slot [] id score = []
fill_slot (none ∷ xs) id score = some (id, score) ∷ xs
fill_slot (some e ∷ xs) id score = some e ∷ fill_slot xs id score

unfoldable pub update : List Entry → CoreNodeId → ℕ → List Entry
update scores id score =
    if has_entry scores id then overwrite scores id score else fill_slot scores id score

-- `iter().flatten().max_by_key(score)`: of equal scores the last one is taken.
abbrev pub best : Option (CoreNodeId × ℕ) → List Entry → Option (CoreNodeId × ℕ)
best b [] = b
best b (none ∷ xs) = best b xs
best none (some e ∷ xs) = best (some e) xs
best (some b) (some e ∷ xs) = best (some (if ltb e.1 b.1 then b else e)) xs

unfoldable pub leader : List Entry → Option NodeId
leader scores = elim (best none scores) [ none ↦ none | some e ↦ some (from_core_id e.0) ]
