-- ===== src/Ptp.antt =====
-- crates/tiny-io-oi/src/ptp/mod.rs: the synchronised clock.
pub mod Exchange
use tiny_io_oi.Prelude.{ℕ, if◌then◌else◌}
use tiny_io_oi.Prelude.Int.{ℤ, pos, ◌+ℤ◌, ◌-ℤ◌, quot, ltb_ℤ, magnitude, bits, signed}

pub record PtpClock : Type 0 where
  pub offset_us : ℤ

abbrev pub new : PtpClock
new = record { offset_us = pos 0 }

abbrev pub set_offset : ℤ → PtpClock → PtpClock
set_offset offset c = record { offset_us = offset }

abbrev pub get_offset : PtpClock → ℤ
get_offset c = c.offset_us

-- i64 arithmetic.
abbrev pub i64 : ℤ → ℤ
i64 z = signed 64 (bits 64 z)

-- `get_time_us`, on the reading of the local clock.
unfoldable pub get_time_us : ℕ → PtpClock → ℕ
unfolding ◌+ℤ◌
get_time_us now c = bits 64 (i64 (signed 64 now +ℤ c.offset_us))

-- `delay.max(0) as u64` is a test of the sign.
unfoldable pub calculate_offset_and_delay : ℕ → ℕ → ℕ → ℕ → ℤ × ℕ
unfolding ◌+ℤ◌ ◌-ℤ◌
calculate_offset_and_delay t1 t2 t3 t4 =
    let there = i64 (signed 64 t2 -ℤ signed 64 t1) in
    let back = i64 (signed 64 t4 -ℤ signed 64 t3) in
    let offset = quot (i64 (there -ℤ back)) 2 in
    let delay = quot (i64 (there +ℤ back)) 2 in
    (offset, if ltb_ℤ delay (pos 0) then 0 else magnitude delay)
