-- ===== src/Ranging/Median.antt =====
-- crates/tiny-io-oi/src/std_impl.rs, opcode 0x8C: the value taken from the window is its median.
use mathlib.Core.List.{Perm}
use tiny_io_oi.Prelude.{
  ℕ, zero, suc, ◌-◌, ◌/◌, ◌≤◌, ◌<◌, List, [], ◌∷◌, ◌++◌, ◌≡◌, refl, ap, subst, arith, length, All,
  get_or, take, length-take, length-map,
}
use tiny_io_oi.Prelude.Int.{ℤ, pos, ◌≤ℤ◌}
use tiny_io_oi.Ranging.{fill, bubble_pass, bubble_rounds, bubble_sort, median_rssi, upper}
use tiny_io_oi.Ranging.Sorted.{IsSorted, bubble_sort_lem}

length-bubble_pass : (n : ℕ) (xs : List ℤ) → length (bubble_pass n xs) ≡ length xs
unfolding bubble_pass
length-bubble_pass zero xs = refl
length-bubble_pass (suc n) [] = refl
length-bubble_pass (suc n) (x ∷ []) = refl
length-bubble_pass (suc n) (x ∷ y ∷ rest) = ap suc (length-bubble_pass n (upper x y ∷ rest))

length-bubble_rounds : (n i w : ℕ) (xs : List ℤ) → length (bubble_rounds n i w xs) ≡ length xs
unfolding bubble_rounds
length-bubble_rounds zero i w xs = refl
length-bubble_rounds (suc n) i w xs = omega (
  arith,
  length-bubble_rounds n (suc i) w (bubble_pass (w - 1 - i) xs),
  length-bubble_pass (w - 1 - i) xs,
)

length-fill : (w : ℕ) (samples : List ℤ) → w ≤ length samples → length (fill w samples) ≡ w
length-fill w samples h =
    omega (arith, length-map {0, 0} (take w samples) _, length-take {0} w samples)

-- A list cut at an index within it.
split_at :
    (xs : List ℤ) (i : ℕ) (d : ℤ)
    → i < length xs
    → (a : List ℤ) × (b : List ℤ) × (xs ≡ a ++ get_or xs i d ∷ b) × (length a ≡ i)
split_at [] i d h = absurd (omega arith)
split_at (x ∷ xs) zero d h = ([], xs, refl, refl)
split_at (x ∷ xs) (suc i) d h =
    let (a, b, e, l) = split_at xs i d (omega arith) in (x ∷ a, b, ap (◌∷◌ x) e, ap suc l)

All-append_right : (P : ℤ → Type 0) (a b : List ℤ) (m : ℤ) → All P (a ++ m ∷ b) → P m
All-append_right P [] b m h = h.0
All-append_right P (x ∷ a) b m h = All-append_right P a b m h.1

IsSorted-split :
    (a b : List ℤ) (m : ℤ) → IsSorted (a ++ m ∷ b) → All (λ z. z ≤ℤ m) a × All (λ z. m ≤ℤ z) b
IsSorted-split [] b m s = (tt, s.0)
IsSorted-split (x ∷ a) b m s =
    let r = IsSorted-split a b m s.1 in ((All-append_right (λ z. x ≤ℤ z) a b m s.0, r.0), r.1)

-- `m` is the value at rank `k` of these values: they fall into `m`, `k` that are not greater,
-- and others that are not less.
pub record HasRank (values : List ℤ) (k : ℕ) (m : ℤ) : Type 0 where
  pub before : List ℤ
  pub after : List ℤ
  pub all_of : Perm (before ++ m ∷ after) values
  pub rank : length before ≡ k
  pub not_greater : All (λ z. z ≤ℤ m) before
  pub not_less : All (λ z. m ≤ℤ z) after

-- What opcode 0x8C compares with its threshold is the median of the first `w` readings: the value
-- of rank `w / 2` among their absolute values modulo 100, for a window within the samples.
pub median_rssi-HasRank :
    (w : ℕ) (samples : List ℤ)
    → 0 < w
    → w ≤ length samples
    → HasRank (fill w samples) (w / 2) (median_rssi w samples)
unfolding median_rssi bubble_sort
median_rssi-HasRank w samples some_w fits =
    let xs = fill w samples in
    let sorted = bubble_sort xs in
    let lem = bubble_sort_lem xs in
    let (a, b, e, l) = split_at sorted (w / 2) (pos 0) (
      omega
        (arith, length-bubble_rounds (length xs) 0 (length xs) xs, length-fill w samples fits)) in
    let sides = IsSorted-split a b _ (subst IsSorted e lem.0) in
    record {
      before = a;
      after = b;
      all_of = subst (λ ys. Perm ys xs) e lem.1;
      rank = l;
      not_greater = sides.0;
      not_less = sides.1;
    }
