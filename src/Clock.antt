-- ===== src/Clock.antt =====
-- crates/tiny-io-oi/src/std_impl.rs (opcodes 0x86 and 0x8B): the loops that wait for the clock.
pub mod Waits
use tiny_io_oi.Prelude.{
  ℕ, zero, suc, ◌+◌, ◌-◌, ◌*◌, ◌/◌, ◌%◌, ◌^◌, true, false, leb, ltb, if◌then◌else◌,
}
use tiny_io_oi.Vm.{VmError, Outcome}

abbrev pub read_clock : (ℕ → ℕ) → ℕ × (ℕ → ℕ)
read_clock clock = (clock 0, λ i. clock (suc i))

-- The body of both waiting loops: until the clock reaches `target_us`, or more than ten seconds
-- have passed since `start_us`, with `fuel` readings to take.
unfoldable pub wait_until : ℕ → ℕ → ℕ → (ℕ → ℕ) → Outcome × (ℕ → ℕ)
wait_until zero target_us start_us clock = (Outcome.waiting, clock)
wait_until (suc fuel) target_us start_us clock =
    let (now, later) = read_clock clock in
    elim (leb target_us now) [
      | true ↦ (Outcome.done, later)
      | false ↦ elim (ltb 10_000_000 (now - start_us)) [
        | true ↦ (Outcome.trap VmError.out_of_fuel, later)
        | false ↦ wait_until fuel target_us start_us later
      ]
    ]

-- 0x8B: the end of the sleep, aligned to a multiple of `align_ms`.
unfoldable pub hibernate_target : ℕ → ℕ → ℕ → ℕ
hibernate_target duration_ms align_ms current_us =
    let current_ms = current_us / 1000 in
    let target_ms =
      if ltb 0 align_ms
      then current_ms + (align_ms - current_ms % align_ms) + duration_ms
      else current_ms + duration_ms in
    target_ms * 1000 % 2 ^ 64
