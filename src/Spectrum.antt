-- ===== src/Spectrum.antt =====
-- crates/tiny-io-oi/src/std_impl.rs: the 256-point FFT, the peak finder and the band energies. The
-- arrays of the source are lists; an index out of range reads a zero and writes nothing.
pub mod Reversal
pub mod Peak
use tiny_io_oi.Prelude.{
  ℕ, zero, suc, ◌+◌, ◌*◌, ◌/◌, ◌%◌, List, [], ◌∷◌, true, false, get_or, set, replicate, leb, length,
  ltb, if◌then◌else◌,
}
use tiny_io_oi.Prelude.Int.{ℤ, pos}
use tiny_io_oi.Floats.{Floats}

-- The inner loop of the bit reversal: `n` rounds left.
-- `(rev << 1) | (temp & 1)` sets the bit that the shift has cleared.
unfoldable pub reverse_loop : ℕ → ℕ → ℕ → ℕ
reverse_loop zero rev temp = rev
reverse_loop (suc n) rev temp = reverse_loop n (rev * 2 + temp % 2) (temp / 2)

unfoldable pub bit_reverse : ℕ → ℕ
unfolding reverse_loop
bit_reverse i = reverse_loop 8 0 i

module _ (floats : Floats) where
  open floats use {
    F, lit, pi, of_int, add, sub, mul, div, neg, lt, sqrtf, cosf, sinf, to_u16, to_u32,
  }

  pub record Complex32 : Type 0 where
    pub re : F
    pub im : F

  abbrev complex_zero : Complex32
  complex_zero = record { re = lit 0; im = lit 0 }

  abbrev complex_add : Complex32 → Complex32 → Complex32
  complex_add a b = record { re = add a.re b.re; im = add a.im b.im }

  abbrev complex_sub : Complex32 → Complex32 → Complex32
  complex_sub a b = record { re = sub a.re b.re; im = sub a.im b.im }

  abbrev complex_mul : Complex32 → Complex32 → Complex32
  complex_mul a b = record {
    re = sub (mul a.re b.re) (mul a.im b.im);
    im = add (mul a.re b.im) (mul a.im b.re);
  }

  abbrev norm : Complex32 → F
  norm a = sqrtf (add (mul a.re a.re) (mul a.im a.im))

  -- 1. `for i in 0..n`: each sample goes to the slot with the reversed index, `n` rounds left.
  pub load_from : List ℤ → ℕ → ℕ → List Complex32 → List Complex32
  load_from samples zero i slots = slots
  load_from samples (suc n) i slots = load_from samples n (suc i) (
      set slots (bit_reverse i) (record {
        re = if ltb i (length samples) then of_int (get_or samples i (pos 0)) else lit 0;
        im = lit 0;
      }))

  pub load : List ℤ → List Complex32
  unfolding load_from
  load samples = load_from samples 256 0 (replicate 256 complex_zero)

  -- 2. `for j in 0..(len / 2)`: the butterflies of the block at `i`, `n` rounds left.
  butterflies : ℕ → ℕ → ℕ → ℕ → Complex32 → Complex32 → List Complex32 → List Complex32
  butterflies zero len i j w w_len slots = slots
  butterflies (suc n) len i j w w_len slots =
      let u = get_or slots (i + j) complex_zero in
      let v = complex_mul (get_or slots (i + j + len / 2) complex_zero) w in
      let slots' = set slots (i + j) (complex_add u v) in
      butterflies n len i (suc j) (complex_mul w w_len) w_len
        (set slots' (i + j + len / 2) (complex_sub u v))

  -- `while i < n`, over the blocks of one stage; the fuel is the number of slots.
  blocks : ℕ → ℕ → ℕ → Complex32 → List Complex32 → List Complex32
  blocks zero len i w_len slots = slots
  blocks (suc fuel) len i w_len slots = elim (ltb i 256) [
    | true ↦
        blocks fuel len (i + len) w_len
          (butterflies (len / 2) len i 0 (record { re = lit 1; im = lit 0 }) w_len slots)
    | false ↦ slots
  ]

  -- `while len <= n`, doubling `len`; nine rounds pass 256.
  stages : ℕ → ℕ → List Complex32 → List Complex32
  stages zero len slots = slots
  stages (suc fuel) len slots = elim (leb len 256) [
    | true ↦
        let angle = div (mul (neg (lit 2)) pi) (lit len) in
        stages fuel (len * 2) (blocks 256 len 0 (record { re = cosf angle; im = sinf angle }) slots)
    | false ↦ slots
  ]

  -- 3. `for i in 0..128`.
  magnitudes_from : ℕ → ℕ → List Complex32 → List F
  magnitudes_from zero i slots = []
  magnitudes_from (suc n) i slots =
      norm (get_or slots i complex_zero) ∷ magnitudes_from n (suc i) slots

  pub heapless_fft_256 : List ℤ → List F
  unfolding load butterflies blocks stages magnitudes_from
  heapless_fft_256 samples = magnitudes_from 128 0 (stages 9 2 (load samples))

  -- The peak finder's loop over `i` in `1..128`, `n` rounds left.
  pub find_peak : List F → ℕ → ℕ → F → ℕ → F × ℕ
  find_peak magnitudes zero i max_mag peak = (max_mag, peak)
  find_peak magnitudes (suc n) i max_mag peak =
      let mag = get_or magnitudes i (lit 0) in
      let above = lt max_mag mag in
      find_peak magnitudes n (suc i) (if above then mag else max_mag) (if above then i else peak)

  -- `((x / 256.0) * 32768.0).min(65535.0) as u16`.
  abbrev pub q15 : F → ℕ
  q15 x = to_u16 (floats.min (mul (div x (lit 256)) (lit 32768)) (lit 65535))

  -- The peak frequency and its Q15 amplitude.
  unfoldable pub local_fixed_fft : List ℤ → F → ℕ × ℕ
  unfolding heapless_fft_256 find_peak
  local_fixed_fft samples sample_rate =
      let (max_mag, peak_index) = find_peak (heapless_fft_256 samples) 127 1 (neg (lit 1)) 0 in
      (to_u32 (mul (lit peak_index) (div sample_rate (lit 256))), q15 max_mag)

  -- The loop of `calculate_band_energies` over `i` in `1..128`, `n` rounds left.
  sum_bands : List F → F → ℕ → ℕ → F → F → F → F × F × F
  sum_bands magnitudes resolution zero i low mid high = (low, mid, high)
  sum_bands magnitudes resolution (suc n) i low mid high =
      let freq = mul (lit i) resolution in
      let mag = get_or magnitudes i (lit 0) in
      let is_low = lt freq (lit 100) in
      let is_mid = lt freq (lit 1000) in
      sum_bands magnitudes resolution n (suc i) (if is_low then add low mag else low)
        (if is_low then mid else (if is_mid then add mid mag else mid))
        (if is_low then high else (if is_mid then high else add high mag))

  pub calculate_band_energies : List F → F → ℕ × ℕ × ℕ
  unfolding sum_bands
  calculate_band_energies magnitudes sample_rate =
      let (low, mid, high) =
        sum_bands magnitudes (div sample_rate (lit 256)) 127 1 (lit 0) (lit 0) (lit 0) in
      (q15 low, q15 mid, q15 high)
