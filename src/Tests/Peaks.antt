-- ===== src/Tests/Peaks.antt =====
-- Concrete inputs for the theorem on the peak finder.
use tiny_io_oi.Prelude.{ℕ, List, [], ◌∷◌, ◌*◌, ◌/◌, ◌≡◌, arith, min, ◌^◌, ◌-◌}
use tiny_io_oi.Prelude.Int.{ℤ, pos}
use tiny_io_oi.Spectrum.{heapless_fft_256, local_fixed_fft}
use tiny_io_oi.Spectrum.Peak.{IsStrict, IsPeak, local_fixed_fft-IsPeak}
use tiny_io_oi.Tests.Boards.{whole_numbers}

strict_numbers : IsStrict whole_numbers
strict_numbers = record {
  lt_irrefl = λ a. ground arith;
  lt_trans = λ a b c h k. ground (arith, h, k);
}

-- Three samples, at 8000 in a second.
abbrev taps : List ℤ
taps = pos 9 ∷ pos 0 ∷ pos 5 ∷ []

local_fixed_fft-IsPeak_example :
    (peak : ℕ × ℕ) × IsPeak whole_numbers strict_numbers
      (heapless_fft_256 whole_numbers taps)
      1
      128
      1
      0
      peak
    × (local_fixed_fft whole_numbers taps 8000
        ≡ (min (peak.1 * 31) (2 ^ 32 - 1), min (min (peak.0 / 256 * 32768) 65535) (2 ^ 16 - 1)))
local_fixed_fft-IsPeak_example = local_fixed_fft-IsPeak whole_numbers strict_numbers taps 8000
