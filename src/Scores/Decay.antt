-- ===== src/Scores/Decay.antt =====
-- crates/tiny-io-oi/src/node.rs: how long an entry of the score table lasts.
use tiny_io_oi.Prelude.{
  ℕ, zero, suc, ◌-◌, ◌<◌, List, map, none, some, ◌≡◌, arith, ltb, if◌then◌else◌, get_elem?,
  get_elem?-map,
}
use tiny_io_oi.Protocol.{CoreNodeId}
use tiny_io_oi.Scores.{Entry, decay, decay_entry, clear_entry}

-- The table after a number of ticks without a message.
abbrev pub decays : ℕ → List Entry → List Entry
decays zero scores = scores
decays (suc k) scores = decays k (decay scores)

clear-decay_entry :
    (id : CoreNodeId) (score : ℕ)
    → clear_entry (decay_entry (some (id, score)))
      ≡ (if ltb 1 score then some (id, score - 1) else none)
clear-decay_entry id score = ground arith

get_elem?-decay :
    (scores : List Entry) (i : ℕ) (x : Entry)
    → get_elem? scores i ≡ some x
    → get_elem? (decay scores) i ≡ some (clear_entry (decay_entry x))
unfolding decay
get_elem?-decay scores i x h =
    get_elem?-map (map decay_entry scores) clear_entry i (decay_entry x)
      (get_elem?-map scores decay_entry i x h)

decays-none :
    (k : ℕ) (scores : List Entry) (i : ℕ)
    → get_elem? scores i ≡ some none
    → get_elem? (decays k scores) i ≡ some none
decays-none zero scores i h = h
decays-none (suc k) scores i h = decays-none k (decay scores) i (get_elem?-decay scores i none h)

-- An entry with a positive score stays for as many ticks as its score, less one, with a point lost
-- in each, and is gone from the table after that.
pub decays-entry :
    (k : ℕ) (scores : List Entry) (i : ℕ) (id : CoreNodeId) (score : ℕ)
    → get_elem? scores i ≡ some (some (id, score))
    → 0 < score
    → get_elem? (decays k scores) i ≡ some (if ltb k score then some (id, score - k) else none)
decays-entry zero scores i id score h pos = ground arith
decays-entry (suc k) scores i id score h pos = ground (
  arith,
  get_elem?-decay scores i (some (id, score)) h,
  clear-decay_entry id score,
  decays-entry k (decay scores) i id (score - 1),
  decays-none k (decay scores) i,
)
