-- ===== src/Bytecode/Encoding.antt =====
-- crates/tiny-io-oi/src/vm.rs, `MicroVm::run_std`: the bytes of a program, as SPEC.md lays them out, and
-- what is read of them.
use tiny_io_oi.Prelude.{ℕ, ◌^◌, ◌<◌, List, [], ◌∷◌, ◌++◌, ◌≡◌, refl, ap, arith, length, All}
use tiny_io_oi.Prelude.Words.{from_le, to_le}
use tiny_io_oi.Bytecode.{Instr, decode}
use tiny_io_oi.Bytecode.Length.{InRange}

-- An instruction in eight bytes: the opcode, the pin, and the two parameters with their lowest byte
-- first.
abbrev pub encode : Instr → List ℕ
encode i = i.opcode ∷ i.pin ∷ (to_le 2 i.param_a ++ to_le 4 i.param_b)

abbrev pub program : List Instr → List ℕ → List ℕ
program [] rest = rest
program (i ∷ is) rest = encode i ++ program is rest

from_le-to_le_two : (n : ℕ) → n < 2 ^ 16 → from_le (to_le 2 n) ≡ n
from_le-to_le_two n h = omega arith

from_le-to_le_four : (n : ℕ) → n < 2 ^ 32 → from_le (to_le 4 n) ≡ n
from_le-to_le_four n h = omega arith

decode-short : (rest : List ℕ) → length rest < 8 → decode rest ≡ []
unfolding decode
decode-short (o ∷ p ∷ a0 ∷ a1 ∷ b0 ∷ b1 ∷ b2 ∷ b3 ∷ rest) h = absurd (omega arith)
decode-short _ h = refl

-- The bytes of a program of which every field fits its type, with fewer than eight bytes behind
-- them, are decoded as the instructions of the program, in their order.
pub decode-program :
    (is : List Instr) (rest : List ℕ)
    → All InRange is
    → length rest < 8
    → decode (program is rest) ≡ is
unfolding decode
decode-program [] rest fits short = decode-short rest short
decode-program (i ∷ is) rest fits short =
    rw
      (
        from_le-to_le_two i.param_a fits.0.param_a_u16,
        from_le-to_le_four i.param_b fits.0.param_b_u32,
      )
      (ap (◌∷◌ i) (decode-program is rest fits.1 short))
