-- ===== src/Clock/Waits.antt =====
-- crates/tiny-io-oi/src/std_impl.rs (opcodes 0x86 and 0x8B): when a waiting loop ends, and how.
use native.Mathlib.Nat.{mod-lt, div-add-mod}
use tiny_io_oi.Prelude.{
  ℕ, zero, suc, ◌+◌, ◌-◌, ◌*◌, ◌/◌, ◌%◌, ◌^◌, ◌≤◌, ◌<◌, ◌≡◌, refl, ap, ◌∙◌, arith,
}
use tiny_io_oi.Vm.{VmError, Outcome}
use tiny_io_oi.Clock.{wait_until, hibernate_target}

-- The reading neither reaches the target nor lies more than ten seconds after the start.
abbrev pub IsEarly : ℕ → ℕ → ℕ → Type 0
IsEarly target_us start_us now = (now < target_us) × (now - start_us ≤ 10_000_000)

-- The readings behind the first `k`.
abbrev pub skip : ℕ → (ℕ → ℕ) → ℕ → ℕ
skip zero clock = clock
skip (suc k) clock = skip k (λ i. clock (suc i))

skip_head : (k : ℕ) (clock : ℕ → ℕ) → skip k clock 0 ≡ clock k
skip_head zero clock = refl
skip_head (suc k) clock = skip_head k (λ i. clock (suc i))

skip_tail : (k : ℕ) (clock : ℕ → ℕ) → skip (suc k) clock ≡ (λ i. skip k clock (suc i))
skip_tail zero clock = refl
skip_tail (suc k) clock = skip_tail k (λ i. clock (suc i))

wait_until-early :
    (k fuel target_us start_us f : ℕ) (clock : ℕ → ℕ)
    → fuel ≡ k + f
    → ((j : ℕ) → j < k → IsEarly target_us start_us (clock j))
    → wait_until fuel target_us start_us clock ≡ wait_until f target_us start_us (skip k clock)
unfolding wait_until
wait_until-early zero fuel target_us start_us f clock e early =
    ap (λ n. wait_until n target_us start_us clock) (omega arith)
wait_until-early (suc k) zero target_us start_us f clock e early = absurd (omega arith)
wait_until-early (suc k) (suc fuel) target_us start_us f clock e early = ground (
  arith,
  early 0 (omega arith),
  wait_until-early k fuel target_us start_us f (λ i. clock (suc i)) (omega arith)
      (λ j lt. early (suc j) (omega arith)),
)

module _ (fuel target_us start_us k f : ℕ) (clock : ℕ → ℕ) (enough : fuel ≡ k + suc f)
    (early : (j : ℕ) → j < k → IsEarly target_us start_us (clock j)) where
  -- A waiting loop that is granted more than `k` readings, of which the first `k` are early, ends
  -- with success at the next one if that has reached the target, and reads no further.
  pub wait_until-done :
      target_us ≤ clock k
      → wait_until fuel target_us start_us clock ≡ (Outcome.done, skip (suc k) clock)
  unfolding wait_until
  wait_until-done reached =
      wait_until-early k fuel target_us start_us (suc f) clock enough early
      ∙ ground (arith, skip_head k clock, skip_tail k clock)

  -- If instead that reading lies short of the target and more than ten seconds after the start,
  -- the loop ends there with `OutOfFuel`.
  pub wait_until-timeout :
      clock k < target_us
      → 10_000_000 < clock k - start_us
      → wait_until fuel target_us start_us clock
        ≡ (Outcome.trap VmError.out_of_fuel, skip (suc k) clock)
  unfolding wait_until
  wait_until-timeout short late =
      wait_until-early k fuel target_us start_us (suc f) clock enough early
      ∙ ground (arith, skip_head k clock, skip_tail k clock)

-- The sleep of opcode 0x8B ends `duration_ms` after the next multiple of `align_ms` behind the
-- present millisecond.
pub hibernate_target-aligned :
    (duration_ms align_ms current_us : ℕ)
    → duration_ms < 2 ^ 16
    → align_ms < 2 ^ 32
    → current_us < 2 ^ 63
    → 0 < align_ms
    → hibernate_target duration_ms align_ms current_us
      ≡ ((current_us / 1000 / align_ms + 1) * align_ms + duration_ms) * 1000
unfolding hibernate_target
hibernate_target-aligned duration_ms align_ms current_us hd ha hc pos = ground (arith, next, below)
  where
    below : current_us / 1000 % align_ms < align_ms
    below = mod-lt (current_us / 1000) pos

    next :
        (current_us / 1000 / align_ms + 1) * align_ms
        ≡ current_us / 1000 + (align_ms - current_us / 1000 % align_ms)
    next = grind (arith, below, div-add-mod (current_us / 1000) align_ms)
