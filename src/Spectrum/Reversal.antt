-- ===== src/Spectrum/Reversal.antt =====
-- crates/tiny-io-oi/src/std_impl.rs: the bit reversal of the FFT.
use tiny_io_oi.Prelude.{ℕ, ◌<◌, ◌≡◌, arith}
use tiny_io_oi.Spectrum.{bit_reverse}

-- Every index of the 256 slots is sent to one of them, and back by a second reversal.
pub bit_reverse-involutive :
    (i : ℕ) → i < 256 → (bit_reverse i < 256) × (bit_reverse (bit_reverse i) ≡ i)
unfolding bit_reverse
bit_reverse-involutive i h = (omega arith, omega arith)
