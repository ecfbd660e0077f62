-- ===== src/Log.antt =====
-- crates/tiny-io-oi/src/node.rs, `recover_from_wal`: reading the write-ahead log. The log itself and
-- the coding of its commands (cdDB) are parameters.
pub mod Replay
pub mod Durable
use tiny_io_oi.Prelude.{
  ℕ, zero, suc, List, Option, none, some, ltb, if◌then◌else◌, length, take, drop, Bool, ◌%◌, ◌^◌,
}
use tiny_io_oi.Prelude.Words.{from_le}
use tiny_io_oi.Traits.{IoOiState}

-- Why a node enters safe mode: the text that it logs.
pub data Reason : Type 0 where
  heartbeat_decay double_sign : Reason

-- What the node uses of cdDB. The Boolean of `append` is whether it returned `Ok`. `conflict` is the command with a `conflict_reason`, `delta_insert` the
-- one with an integer attribute `delta`, and `delta_of` that attribute of an `Insert`.
pub record Wal (W C : Type 0) : Type 0 where
  pub append : W → C → W × Bool
  pub read_all : W → Option (List ℕ)
  pub decode : List ℕ → Option C
  pub conflict : Reason → C
  pub delta_insert : ℕ → C
  pub delta_of : C → Option ℕ

module _ {W C S : Type 0} (wal_ops : Wal W C) (state_ops : IoOiState S) where
  -- What one record of the log does to the state.
  abbrev pub apply_delta_of : Option ℕ → S → S
  apply_delta_of none s = s
  apply_delta_of (some delta) s = state_ops.apply_delta s (delta % 2 ^ 8)

  unfoldable pub apply_record : List ℕ → S → S
  apply_record bytes s = elim (wal_ops.decode bytes) [
    | none ↦ s
    | some cmd ↦ apply_delta_of (wal_ops.delta_of cmd) s
  ]

  -- The loop from the unread bytes on: a record is its length in four bytes and then its bytes, and
  -- one that is cut off ends the loop. `fuel` bounds the rounds.
  unfoldable pub replay : ℕ → List ℕ → S → S
  unfolding apply_record
  replay zero bytes s = s
  replay (suc fuel) bytes s =
      let len = from_le (take 4 bytes) in
      let rest = drop 4 bytes in
      let later = replay fuel (drop len rest) (apply_record (take len rest) s) in
      if ltb (length bytes) 4 then s else (if ltb (length rest) len then s else later)

  -- `recover_from_wal`, on the log and the state of the node.
  unfoldable pub recover : Option W → S → S
  recover none s = s
  recover (some wal) s = elim (wal_ops.read_all wal) [
    | none ↦ s
    | some bytes ↦ replay (length bytes) bytes s
  ]
