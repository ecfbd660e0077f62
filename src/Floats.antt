-- ===== src/Floats.antt =====
-- `f32` and libm, which crates/tiny-io-oi/src/std_impl.rs calculates with: a type and its
-- operations, of which nothing is assumed here but the range of the saturating casts to integers.
use tiny_io_oi.Prelude.{ℕ, ◌<◌, ◌^◌, Bool}
use tiny_io_oi.Prelude.Int.{ℤ}

pub record Floats : Type 1 where
  pub F : Type 0
  pub lit : ℕ → F
  pub pi : F
  pub of_int : ℤ → F
  pub add : F → F → F
  pub sub : F → F → F
  pub mul : F → F → F
  pub div : F → F → F
  pub neg : F → F
  pub lt : F → F → Bool
  pub min : F → F → F
  pub sqrtf : F → F
  pub cosf : F → F
  pub sinf : F → F
  pub atan2f : F → F → F
  pub fabsf : F → F
  pub to_u16 : F → ℕ
  pub to_u32 : F → ℕ
  pub to_i16 : F → ℤ
  pub to_u16-lt : (x : F) → to_u16 x < 2 ^ 16
  pub to_u32-lt : (x : F) → to_u32 x < 2 ^ 32
