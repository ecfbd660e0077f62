-- ===== src/Protocol/Codes.antt =====
-- crates/tiny-io-oi/src/lib.rs: the two conversions of opcodes, and those of node identifiers.
use tiny_io_oi.Prelude.{
  ℕ, ◌++◌, ◌≡◌, ◌≢◌, ◌↔◌, refl, true, arith, length, take, take-append, replicate, length-append,
  ◌∙◌, ap,
}
use tiny_io_oi.Protocol.{
  NodeId, OpCode, opcode_byte, opcode_from, to_core_id, from_core_id, same_opcode,
}

opcode_from-byte : (op : OpCode) → opcode_from (opcode_byte op) ≡ op
unfolding opcode_from
opcode_from-byte OpCode.heartbeat = refl
opcode_from-byte OpCode.spatial_gossip = refl
opcode_from-byte OpCode.task_dispatch = refl
opcode_from-byte OpCode.task_achieved = refl
opcode_from-byte OpCode.task_failed = refl
opcode_from-byte OpCode.state_update = refl
opcode_from-byte OpCode.vm_script_dispatch = refl
opcode_from-byte OpCode.std_bytecode_dispatch = refl
opcode_from-byte OpCode.exception = refl

opcode_byte-from :
    (b : ℕ) (op : OpCode) → opcode_from b ≡ op → op ≢ OpCode.heartbeat → b ≡ opcode_byte op
unfolding opcode_from
opcode_byte-from b OpCode.heartbeat e ne = absurd (ne refl)
opcode_byte-from b _ e ne = ground arith

-- Reading an opcode's own byte gives the opcode back, and only that byte is read as it, but for
-- the heartbeat.
pub opcode-round_trip :
    ((op : OpCode) → opcode_from (opcode_byte op) ≡ op)
    × ((b : ℕ) (op : OpCode) → opcode_from b ≡ op → op ≢ OpCode.heartbeat → b ≡ opcode_byte op)
opcode-round_trip = (opcode_from-byte, opcode_byte-from)

-- A byte that is no opcode's discriminant is read as a heartbeat.
pub opcode_from-unknown :
    (b : ℕ) → ((op : OpCode) → opcode_byte op ≢ b) → opcode_from b ≡ OpCode.heartbeat
unfolding opcode_from
opcode_from-unknown b none_fits = ground (
  arith,
  none_fits OpCode.heartbeat,
  none_fits OpCode.spatial_gossip,
  none_fits OpCode.task_dispatch,
  none_fits OpCode.task_achieved,
  none_fits OpCode.task_failed,
  none_fits OpCode.state_update,
  none_fits OpCode.vm_script_dispatch,
  none_fits OpCode.std_bytecode_dispatch,
  none_fits OpCode.exception,
)

pub same_opcode_iff : (a b : OpCode) → (same_opcode a b ≡ true) ↔ (a ≡ b)
unfolding same_opcode
same_opcode_iff a b = (λ h. ap (λ o. o) (round a b h), λ e. ground arith)
  where
    round : (a b : OpCode) → same_opcode a b ≡ true → a ≡ b
    round a b h = ground (arith, opcode_from-byte a, opcode_from-byte b)

-- The core identifier keeps the six bytes of the address and is 32 bytes long.
pub core_id-round_trip :
    (id : NodeId)
    → length id ≡ 6
    → (from_core_id (to_core_id id) ≡ id) × (length (to_core_id id) ≡ 32)
unfolding from_core_id to_core_id
core_id-round_trip id six = (
  ap (λ n. take n (id ++ replicate 26 0)) six' ∙ take-append id (replicate 26 0),
  omega (arith, length-append {0} id (replicate 26 0)),
)
  where
    six' : 6 ≡ length id
    six' = omega arith
