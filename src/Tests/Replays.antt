-- ===== src/Tests/Replays.antt =====
-- The repository's own tests, as tests of the model: each is the Boolean of its assertions. What the
-- libraries serialize is coded here as in Tests.Hosts.
pub mod Scripts
pub mod Soldiers
pub mod Bridges
pub mod Slots
use tiny_io_oi.Prelude.{ℕ, List, [], ◌∷◌, Bool, true, false, ◌&&◌, same}
use tiny_io_oi.Protocol.{OpCode, same_opcode}
use tiny_io_oi.Vm.{VmError, Outcome}

-- All the assertions of a test.
abbrev pub all_of : List Bool → Bool
all_of [] = true
all_of (b ∷ bs) = b && all_of bs

abbrev pub is_ok : Outcome → Bool
is_ok Outcome.done = true
is_ok _ = false

abbrev pub is_err : Outcome → Bool
is_err (Outcome.trap e) = true
is_err _ = false

abbrev pub is_out_of_fuel : Outcome → Bool
is_out_of_fuel (Outcome.trap VmError.out_of_fuel) = true
is_out_of_fuel _ = false

-- Is this the only message that was sent?
abbrev pub only_sent : OpCode → List ℕ → List (OpCode × List ℕ) → Bool
only_sent opcode payload ((op, p) ∷ []) = same_opcode op opcode && same p payload
only_sent opcode payload _ = false
