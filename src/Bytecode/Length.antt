-- ===== src/Bytecode/Length.antt =====
-- crates/tiny-io-oi/src/vm.rs: how many instructions a bytecode holds, and of what size.
use tiny_io_oi.Prelude.{ℕ, ◌/◌, ◌^◌, ◌<◌, List, ◌∷◌, ◌≡◌, arith, length, All}
use tiny_io_oi.Prelude.Words.{AreBytes}
use tiny_io_oi.Bytecode.{Instr, decode}

-- A bytecode holds one instruction for each eight bytes.
pub length-decode : (bytes : List ℕ) → length (decode bytes) ≡ length bytes / 8
unfolding decode
length-decode (o ∷ p ∷ a0 ∷ a1 ∷ b0 ∷ b1 ∷ b2 ∷ b3 ∷ rest) = omega (arith, length-decode rest)
length-decode _ = omega arith

-- The fields of an instruction fit the types of the source.
pub record InRange (i : Instr) : Type 0 where
  pub opcode_u8 : i.opcode < 2 ^ 8
  pub pin_u8 : i.pin < 2 ^ 8
  pub param_a_u16 : i.param_a < 2 ^ 16
  pub param_b_u32 : i.param_b < 2 ^ 32

-- Of a bytecode that is made of bytes, every decoded instruction has fields that fit their types.
pub decode-InRange : (bytes : List ℕ) → AreBytes bytes → All InRange (decode bytes)
unfolding decode
decode-InRange (o ∷ p ∷ a0 ∷ a1 ∷ b0 ∷ b1 ∷ b2 ∷ b3 ∷ rest) h =
    (omega arith, decode-InRange rest h.1.1.1.1.1.1.1.1)
decode-InRange _ h = tt
