-- ===== src/Protocol.antt =====
-- crates/tiny-io-oi/src/lib.rs: the opcodes of a radio message and the node identifiers.
pub mod Codes
use tiny_io_oi.Prelude.{ℕ, List, ◌++◌, Bool, take, replicate, ◌==◌, if◌then◌else◌}

-- A MAC address: six bytes.
abbrev pub NodeId : Type 0
NodeId = List ℕ

-- The core protocol's identifier: 32 bytes.
abbrev pub CoreNodeId : Type 0
CoreNodeId = List ℕ

pub data OpCode : Type 0 where
  heartbeat spatial_gossip task_dispatch task_achieved task_failed state_update : OpCode
  vm_script_dispatch std_bytecode_dispatch exception : OpCode

-- `opcode as u8`: the discriminants.
abbrev pub opcode_byte : OpCode → ℕ
opcode_byte OpCode.heartbeat = 0x04
opcode_byte OpCode.spatial_gossip = 0x05
opcode_byte OpCode.task_dispatch = 0x20
opcode_byte OpCode.task_achieved = 0x21
opcode_byte OpCode.task_failed = 0x22
opcode_byte OpCode.state_update = 0x30
opcode_byte OpCode.vm_script_dispatch = 0x40
opcode_byte OpCode.std_bytecode_dispatch = 0x41
opcode_byte OpCode.exception = 0xFF

-- `OpCode::from`: a byte that names no opcode is read as a heartbeat.
unfoldable pub opcode_from : ℕ → OpCode
opcode_from b =
    if b == 0x04
    then OpCode.heartbeat
    else (if b == 0x05
        then OpCode.spatial_gossip
        else (if b == 0x20
            then OpCode.task_dispatch
            else (if b == 0x21
                then OpCode.task_achieved
                else (if b == 0x22
                    then OpCode.task_failed
                    else (if b == 0x30
                        then OpCode.state_update
                        else (if b == 0x40
                            then OpCode.vm_script_dispatch
                            else (if b == 0x41
                                then OpCode.std_bytecode_dispatch
                                else (if b == 0xFF
                                    then OpCode.exception
                                    else OpCode.heartbeat))))))))

-- `core_id[0..6].copy_from_slice(&id)` into 32 zero bytes.
unfoldable pub to_core_id : NodeId → CoreNodeId
to_core_id id = id ++ replicate 26 0

unfoldable pub from_core_id : CoreNodeId → NodeId
from_core_id id = take 6 id

-- `==` of opcodes.
unfoldable pub same_opcode : OpCode → OpCode → Bool
same_opcode a b = opcode_byte a == opcode_byte b
