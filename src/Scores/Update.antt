-- ===== src/Scores/Update.antt =====
-- crates/tiny-io-oi/src/node.rs: what `update_score` changes in the score table.
use tiny_io_oi.Prelude.{
  ℕ, List, [], ◌∷◌, Option, none, some, Bool, true, false, ◌≡◌, ◌≢◌, ◌⊎◌, refl, ap, arith,
  if◌then◌else◌, length, same, same_iff, same_self,
}
use tiny_io_oi.Protocol.{CoreNodeId}
use tiny_io_oi.Scores.{Entry, update, has_entry, overwrite, fill_slot}

-- The score of a node: that of its first entry.
abbrev pub score_of : List Entry → CoreNodeId → Option ℕ
score_of [] id = none
score_of (none ∷ xs) id = score_of xs id
score_of (some (k, s) ∷ xs) id = let rest = score_of xs id in if same k id then some s else rest

abbrev pub has_slot : List Entry → Bool
has_slot [] = false
has_slot (none ∷ xs) = true
has_slot (some e ∷ xs) = has_slot xs

overwrite_self :
    (xs : List Entry) (id : CoreNodeId) (score : ℕ)
    → has_entry xs id ≡ true
    → score_of (overwrite xs id score) id ≡ some score
overwrite_self [] id score h = cc
overwrite_self (none ∷ xs) id score h = overwrite_self xs id score h
overwrite_self (some (k, s) ∷ xs) id score h = ground (arith, overwrite_self xs id score)

overwrite_other :
    (xs : List Entry) (id other : CoreNodeId) (score : ℕ)
    → same id other ≡ false
    → score_of (overwrite xs id score) other ≡ score_of xs other
overwrite_other [] id other score ne = refl
overwrite_other (none ∷ xs) id other score ne = overwrite_other xs id other score ne
overwrite_other (some (k, s) ∷ xs) id other score ne =
    ground (arith, overwrite_other xs id other score ne, (same_iff k id).0)

fill_slot_self :
    (xs : List Entry) (id : CoreNodeId) (score : ℕ)
    → has_entry xs id ≡ false
    → has_slot xs ≡ true
    → score_of (fill_slot xs id score) id ≡ some score
fill_slot_self [] id score h s = cc
fill_slot_self (none ∷ xs) id score h s = ground (arith, same_self id)
fill_slot_self (some (k, s') ∷ xs) id score h s = ground (arith, fill_slot_self xs id score)

fill_slot_other :
    (xs : List Entry) (id other : CoreNodeId) (score : ℕ)
    → same id other ≡ false
    → score_of (fill_slot xs id score) other ≡ score_of xs other
fill_slot_other [] id other score ne = refl
fill_slot_other (none ∷ xs) id other score ne = ground arith
fill_slot_other (some (k, s) ∷ xs) id other score ne =
    ground (arith, fill_slot_other xs id other score ne)

length-overwrite :
    (xs : List Entry) (id : CoreNodeId) (score : ℕ) → length (overwrite xs id score) ≡ length xs
length-overwrite [] id score = refl
length-overwrite (none ∷ xs) id score = omega (arith, length-overwrite xs id score)
length-overwrite (some (k, s) ∷ xs) id score = ground (arith, length-overwrite xs id score)

length-fill_slot :
    (xs : List Entry) (id : CoreNodeId) (score : ℕ) → length (fill_slot xs id score) ≡ length xs
length-fill_slot [] id score = refl
length-fill_slot (none ∷ xs) id score = omega arith
length-fill_slot (some e ∷ xs) id score = omega (arith, length-fill_slot xs id score)

fill_slot-full :
    (xs : List Entry) (id : CoreNodeId) (score : ℕ)
    → has_slot xs ≡ false
    → fill_slot xs id score ≡ xs
fill_slot-full [] id score h = refl
fill_slot-full (none ∷ xs) id score h = cc
fill_slot-full (some e ∷ xs) id score h = ap (◌∷◌ (some e)) (fill_slot-full xs id score h)

-- Where the node has an entry, or the table an empty slot, `update_score` gives it the score, and
-- no other node another one; the table keeps its size.
pub update-score_of :
    (scores : List Entry) (id other : CoreNodeId) (score : ℕ)
    → (has_entry scores id ≡ true) ⊎ (has_slot scores ≡ true)
    → id ≢ other
    → (score_of (update scores id score) id ≡ some score)
      × (score_of (update scores id score) other ≡ score_of scores other)
      × (length (update scores id score) ≡ length scores)
unfolding update
update-score_of scores id other score room ne = ground (
  arith,
  (same_iff id other).0,
  overwrite_self scores id score,
  overwrite_other scores id other score,
  fill_slot_self scores id score,
  fill_slot_other scores id other score,
  length-overwrite scores id score,
  length-fill_slot scores id score,
)

-- A node without an entry gets none in a full table, which stays as it is.
pub update-full :
    (scores : List Entry) (id : CoreNodeId) (score : ℕ)
    → has_entry scores id ≡ false
    → has_slot scores ≡ false
    → update scores id score ≡ scores
unfolding update
update-full scores id score h s = rw h (fill_slot-full scores id score s)

-- `update_score` keeps the size of the table.
pub length-update :
    (scores : List Entry) (id : CoreNodeId) (score : ℕ)
    → length (update scores id score) ≡ length scores
unfolding update
length-update scores id score =
    ground (arith, length-overwrite scores id score, length-fill_slot scores id score)
