-- ===== src/Spectrum/Peak.antt =====
-- crates/tiny-io-oi/src/std_impl.rs: the bin that the peak finder returns.
use tiny_io_oi.Prelude.{
  ℕ, zero, suc, ◌+◌, ◌<◌, ◌≤◌, List, true, false, ◌≡◌, ◌⊎◌, inl, inr, refl, arith, get_or,
  Bool-cases, subst,
}
use tiny_io_oi.Prelude.Int.{ℤ}
use tiny_io_oi.Floats.{Floats}
use tiny_io_oi.Spectrum.{heapless_fft_256, find_peak, q15, local_fixed_fft}

-- What every comparison of floats keeps, that of a NaN too.
pub record IsStrict (floats : Floats) : Type 0 where
  pub lt_irrefl : (a : floats.F) → floats.lt a a ≡ false
  pub lt_trans :
      (a b c : floats.F) → floats.lt a b ≡ true → floats.lt b c ≡ true → floats.lt a c ≡ true

module _ (floats : Floats) (strict : IsStrict floats) where
  open floats use {F, lit, neg, mul, div, lt, to_u32}

  abbrev bin : List F → ℕ → F
  bin magnitudes k = get_or magnitudes k (lit 0)

  -- The magnitude and its bin, of those from `low` to below `high`: none of them exceeds it, and it
  -- is one of them, or the one it started from.
  pub record IsPeak (magnitudes : List F) (low high : ℕ) (start : F) (from : ℕ) (peak : F × ℕ)
      : Type 0 where
    pub highest : (k : ℕ) → low ≤ k → k < high → lt peak.0 (bin magnitudes k) ≡ false
    pub reached :
        ((low ≤ peak.1) × (peak.1 < high) × (peak.0 ≡ bin magnitudes peak.1))
        ⊎ ((peak.0 ≡ start) × (peak.1 ≡ from))
    pub above : (peak.0 ≡ start) ⊎ (lt start peak.0 ≡ true)

  split : (i k : ℕ) → i ≤ k → (i ≡ k) ⊎ (suc i ≤ k)
  split i k low = ground (arith, low)

  lt_keeps : (a b c : F) → lt a b ≡ true → lt a c ≡ false → lt b c ≡ false
  lt_keeps a b c ab ac = elim (Bool-cases (lt b c)) [
    | inl t ↦ let e = strict.lt_trans a b c ab t in cc
    | inr f ↦ f
  ]

  -- A magnitude that does not exceed the start does not exceed what lies above the start.
  above-keeps :
      (start a b : F) → (a ≡ start) ⊎ (lt start a ≡ true) → lt start b ≡ false → lt a b ≡ false
  above-keeps start a b (inl e) not_above = rw e not_above
  above-keeps start a b (inr t) not_above = lt_keeps start a b t not_above

  -- The rest of the loop after a bin that exceeds the magnitude so far, and after one that does not.
  higher-IsPeak :
      (magnitudes : List F) (n i : ℕ) (start : F) (from : ℕ) (r : F × ℕ)
      → lt start (bin magnitudes i) ≡ true
      → IsPeak magnitudes (suc i) (suc i + n) (bin magnitudes i) i r
      → IsPeak magnitudes i (i + suc n) start from r
  higher-IsPeak magnitudes n i start from r t rest = record {
    highest = λ k low high. elim (split i k low) [
      | inl e ↦
          subst (λ j. lt r.0 (bin magnitudes j) ≡ false) e
            (above-keeps (bin magnitudes i) r.0 (bin magnitudes i) rest.above
              (strict.lt_irrefl (bin magnitudes i)))
      | inr later ↦ rest.highest k later (omega (arith, high))
    ];
    reached = elim rest.reached [
      | inl (low, high, e) ↦ inl (omega (arith, low), omega (arith, high), e)
      | inr (e, at) ↦ inl (omega (arith, at), omega (arith, at), rw at e)
    ];
    above = elim rest.above [
      | inl e ↦ inr (rw e t)
      | inr u ↦ inr (strict.lt_trans start (bin magnitudes i) r.0 t u)
    ];
  }

  lower-IsPeak :
      (magnitudes : List F) (n i : ℕ) (start : F) (from : ℕ) (r : F × ℕ)
      → lt start (bin magnitudes i) ≡ false
      → IsPeak magnitudes (suc i) (suc i + n) start from r
      → IsPeak magnitudes i (i + suc n) start from r
  lower-IsPeak magnitudes n i start from r f rest = record {
    highest = λ k low high. elim (split i k low) [
      | inl e ↦
          subst (λ j. lt r.0 (bin magnitudes j) ≡ false) e
            (above-keeps start r.0 (bin magnitudes i) rest.above f)
      | inr later ↦ rest.highest k later (omega (arith, high))
    ];
    reached = elim rest.reached [
      | inl (low, high, e) ↦ inl (omega (arith, low), omega (arith, high), e)
      | inr same ↦ inr same
    ];
    above = rest.above;
  }

  find_peak-IsPeak :
      (magnitudes : List F) (n i : ℕ) (max_mag : F) (peak : ℕ)
      → IsPeak magnitudes i (i + n) max_mag peak (find_peak floats magnitudes n i max_mag peak)
  unfolding find_peak
  find_peak-IsPeak magnitudes zero i max_mag peak = record {
    highest = λ k low high. absurd (omega (arith, low, high));
    reached = inr (refl, refl);
    above = inl refl;
  }
  find_peak-IsPeak magnitudes (suc n) i max_mag peak =
      elim (Bool-cases (lt max_mag (bin magnitudes i))) [
        | inl t ↦ rw t (
            higher-IsPeak magnitudes n i max_mag peak _ t
              (find_peak-IsPeak magnitudes n (suc i) (bin magnitudes i) i))
        | inr f ↦ rw f (
            lower-IsPeak magnitudes n i max_mag peak _ f
              (find_peak-IsPeak magnitudes n (suc i) max_mag peak))
      ]

  -- The frequency and the amplitude that the peak finder gives are those of a bin from 1 to 127 of
  -- the spectrum whose magnitude no other of these bins exceeds, or of bin 0 with the magnitude -1,
  -- where none of them exceeds -1.
  pub local_fixed_fft-IsPeak :
      (samples : List ℤ) (sample_rate : F)
      → (peak : F × ℕ) × IsPeak (heapless_fft_256 floats samples) 1 128 (neg (lit 1)) 0 peak
        × (local_fixed_fft floats samples sample_rate
            ≡ (to_u32 (mul (lit peak.1) (div sample_rate (lit 256))), q15 floats peak.0))
  unfolding local_fixed_fft
  local_fixed_fft-IsPeak samples sample_rate = (
    find_peak floats (heapless_fft_256 floats samples) 127 1 (neg (lit 1)) 0,
    find_peak-IsPeak (heapless_fft_256 floats samples) 127 1 (neg (lit 1)) 0,
    refl,
  )
