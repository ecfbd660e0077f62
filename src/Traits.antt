-- ===== src/Traits.antt =====
-- crates/tiny-io-oi/src/lib.rs and hardware.rs: the hardware traits, as records of operations over
-- a state type. A method on `&mut self` returns the new state. What implements them on a board is
-- not part of the library, so they are parameters of all that uses them.
use tiny_io_oi.Prelude.{ℕ, List, Option, Bool}
use tiny_io_oi.Prelude.Int.{ℤ}
use tiny_io_oi.Protocol.{NodeId, OpCode}

-- `trait Network`. The Boolean of `broadcast` is whether it returned `Ok`; the number that
-- `receive` takes is the length of its buffer, and it returns the filled part.
pub record Network (N : Type 0) : Type 0 where
  pub broadcast : N → OpCode → List ℕ → N × Bool
  pub receive : N → ℕ → N × Option (NodeId × OpCode × List ℕ)

-- `trait Uart`.
pub record Uart (U : Type 0) : Type 0 where
  pub read : U → U × Option ℕ
  pub write : U → List ℕ → U × Bool

-- `trait Motor`.
pub record Motor (M : Type 0) : Type 0 where
  pub set_speed : M → ℕ → M
  pub stop : M → M
  pub fade_to : M → ℕ → ℕ → ℕ → M

-- The default method of `trait Motor`: a fade is a plain `set_speed` to its target.
abbrev pub default_fade_to : {M : Type 0} → (M → ℕ → M) → M → ℕ → ℕ → ℕ → M
default_fade_to set_speed m channel target_duty fade_ms = set_speed m target_duty

-- `trait Gpio` and `trait Adc`. The number that `read_adc_buffer` takes is the buffer's length.
pub record Gpio (G : Type 0) : Type 0 where
  pub read_pin : G → ℕ → ℕ

pub record Adc (G : Type 0) : Type 0 where
  pub read_adc_buffer : G → ℕ → ℕ → List ℤ

-- `trait IoOiState`.
pub record IoOiState (S : Type 0) : Type 0 where
  pub to_bytes : S → List ℕ
  pub apply_delta : S → ℕ → S
