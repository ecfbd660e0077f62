-- ===== src/Ptp/Exchange.antt =====
-- crates/tiny-io-oi/src/ptp/mod.rs: what an exchange over a path with equal delays measures.
use tiny_io_oi.Prelude.{ℕ, ◌+◌, ◌*◌, ◌-◌, ◌^◌, ◌<◌, ◌≤◌, ◌≡◌, arith, if◌then◌else◌, ap, ◌∙◌}
use tiny_io_oi.Prelude.Int.{pos, ◌+ℤ◌, ◌-ℤ◌, sub_ℕ, quot, signed, ltb_ℤ, magnitude}
use tiny_io_oi.Ptp.{calculate_offset_and_delay, i64}

i64-sub_ℕ : (a b : ℕ) → a < 2 ^ 63 → b < 2 ^ 63 → i64 (sub_ℕ a b) ≡ sub_ℕ a b
i64-sub_ℕ a b h k = ground arith

signed-small : (n : ℕ) → n < 2 ^ 63 → signed 64 n ≡ pos n
signed-small n h = ground arith

difference : (a b c d : ℕ) → a + d ≡ c + b → sub_ℕ a b ≡ sub_ℕ c d
difference a b c d e = ground arith

minus-sub_ℕ : (a b c d : ℕ) → sub_ℕ a b -ℤ sub_ℕ c d ≡ sub_ℕ (a + d) (b + c)
unfolding ◌-ℤ◌
minus-sub_ℕ a b c d = ground arith

plus-sub_ℕ : (a b c d : ℕ) → sub_ℕ a b +ℤ sub_ℕ c d ≡ sub_ℕ (a + c) (b + d)
unfolding ◌+ℤ◌
plus-sub_ℕ a b c d = ground arith

half : (n : ℕ) → quot (sub_ℕ (2 * n) 0) 2 ≡ pos n
half n = ground arith

elapsed : (a b : ℕ) → a < 2 ^ 63 → b < 2 ^ 63 → i64 (signed 64 a -ℤ signed 64 b) ≡ sub_ℕ a b
unfolding ◌-ℤ◌
elapsed a b h k =
    rw (signed-small a h, signed-small b k)
      (ap i64 (difference (a + 0) (0 + b) a b (omega arith)) ∙ i64-sub_ℕ a b h k)

doubled : (a b n : ℕ) → a ≡ 2 * n + b → a < 2 ^ 63 → quot (i64 (sub_ℕ a b)) 2 ≡ pos n
doubled a b n e h =
    ap (λ z. quot z 2)
      (i64-sub_ℕ a b h (omega (arith, e, h)) ∙ difference a b (2 * n) 0 (omega (arith, e)))
    ∙ half n

not_negative : (n : ℕ) → (if ltb_ℤ (pos n) (pos 0) then 0 else magnitude (pos n)) ≡ n
not_negative n = ground arith

-- Between a master and a slave whose clock is `ahead` microseconds before the master's, over a path
-- that takes `delay` microseconds both ways, an exchange yields these two numbers.
pub calculate_offset_and_delay-ahead :
    (t1 t3 ahead delay : ℕ)
    → t1 + delay + ahead < 2 ^ 61
    → t3 + delay < 2 ^ 61
    → ahead ≤ t3
    → calculate_offset_and_delay t1 (t1 + delay + ahead) t3 (t3 + delay - ahead)
      ≡ (pos ahead, delay)
unfolding calculate_offset_and_delay
calculate_offset_and_delay-ahead t1 t3 ahead delay h1 h2 h3 =
    let t2 = t1 + delay + ahead in
    let t4 = t3 + delay - ahead in
    rw
      (
        elapsed t2 t1 (omega (arith, h1)) (omega (arith, h1)),
        elapsed t4 t3 (omega (arith, h2)) (omega (arith, h2)),
        minus-sub_ℕ t2 t1 t4 t3,
        plus-sub_ℕ t2 t1 t4 t3,
        doubled (t2 + t3) (t1 + t4) ahead (omega (arith, h3)) (omega (arith, h1, h2)),
        doubled (t2 + t4) (t1 + t3) delay (omega (arith, h3)) (omega (arith, h1, h2)),
      )
      (ap (λ d. (pos ahead, d)) (not_negative delay))
