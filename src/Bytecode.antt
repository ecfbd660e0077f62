-- ===== src/Bytecode.antt =====
-- crates/tiny-io-oi/src/vm.rs, `MicroVm::run_std`: how a bytecode is cut into instructions. The
-- static verifier reads the same eight bytes in the same way.
pub mod Length
pub mod Encoding
use tiny_io_oi.Prelude.{ℕ, List, [], ◌∷◌}
use tiny_io_oi.Prelude.Words.{from_le}

-- An eight-byte instruction, as `run_std` reads it: opcode, pin, and two little-endian words.
pub record Instr : Type 0 where
  pub opcode : ℕ
  pub pin : ℕ
  pub param_a : ℕ
  pub param_b : ℕ

-- `while offset + 8 <= bytecode.len()`: the instructions in order; fewer than eight bytes at the
-- end are not read.
unfoldable pub decode : List ℕ → List Instr
decode (o ∷ p ∷ a0 ∷ a1 ∷ b0 ∷ b1 ∷ b2 ∷ b3 ∷ rest) =
    record {
      opcode = o;
      pin = p;
      param_a = from_le (a0 ∷ a1 ∷ []);
      param_b = from_le (b0 ∷ b1 ∷ b2 ∷ b3 ∷ []);
    }
    ∷ decode rest
decode _ = []
