-- ===== src/Ranging.antt =====
-- crates/tiny-io-oi/src/std_impl.rs, opcode 0x8C: the window of absolute readings and its median.
pub mod Sorted
pub mod Median
use tiny_io_oi.Prelude.{
  ℕ, zero, suc, ◌-◌, ◌/◌, List, [], ◌∷◌, ltb, get_or, if◌then◌else◌, length, take, map,
}
use tiny_io_oi.Prelude.Int.{ℤ, pos, ltb_ℤ, magnitude, rem, bits, signed}

-- `i16::abs`, which wraps at the least value.
abbrev pub abs16 : ℤ → ℤ
abs16 z = signed 16 (bits 16 (pos (magnitude z)))

-- `window_size.clamp(1, 128)`.
abbrev pub clamp_window : ℕ → ℕ
clamp_window n = if ltb n 1 then 1 else (if ltb 128 n then 128 else n)

-- The first `w` readings; the slots of the 128-slot window behind them are never used.
abbrev pub fill : ℕ → List ℤ → List ℤ
fill w samples = map (λ z. rem (abs16 z) 100) (take w samples)

-- The two values that stand at `j` and `j + 1` after `if window[j] > window[j + 1] { swap }`.
abbrev pub lower : ℤ → ℤ → ℤ
lower x y = if ltb_ℤ y x then y else x

abbrev pub upper : ℤ → ℤ → ℤ
upper x y = if ltb_ℤ y x then x else y

-- The inner loop, with `n` rounds left from the head of the list on.
unfoldable pub bubble_pass : ℕ → List ℤ → List ℤ
bubble_pass zero xs = xs
bubble_pass (suc n) [] = []
bubble_pass (suc n) (x ∷ []) = x ∷ []
bubble_pass (suc n) (x ∷ y ∷ rest) = lower x y ∷ bubble_pass n (upper x y ∷ rest)

-- `for i in 0..w`, with `n` rounds left from `i` on.
unfoldable pub bubble_rounds : ℕ → ℕ → ℕ → List ℤ → List ℤ
bubble_rounds zero i w xs = xs
bubble_rounds (suc n) i w xs = bubble_rounds n (suc i) w (bubble_pass (w - 1 - i) xs)

unfoldable pub bubble_sort : List ℤ → List ℤ
bubble_sort xs = bubble_rounds (length xs) 0 (length xs) xs

-- `window[w / 2]` of the sorted window.
unfoldable pub median_rssi : ℕ → List ℤ → ℤ
unfolding bubble_sort bubble_rounds bubble_pass
median_rssi w samples = get_or (bubble_sort (fill w samples)) (w / 2) (pos 0)
