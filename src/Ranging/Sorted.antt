-- ===== src/Ranging/Sorted.antt =====
-- crates/tiny-io-oi/src/std_impl.rs, opcode 0x8C: the bubble sort sorts, and the value that is
-- taken from the window is its median.
use mathlib.Core.List.{Perm, append-nil}
use mathlib.Core.List.Perm
use tiny_io_oi.Prelude.{
  ℕ, zero, suc, ◌+◌, ◌-◌, List, [], ◌∷◌, ◌++◌, ◌≡◌, refl, ap, subst, inl, inr, arith, length, All,
  Bool-cases,
}
use tiny_io_oi.Prelude.Int.{ℤ, ◌≤ℤ◌, ltb_ℤ}
use tiny_io_oi.Ranging.{lower, upper, bubble_pass, bubble_rounds, bubble_sort}

-- Non-decreasing.
abbrev pub IsSorted : List ℤ → Type 0
IsSorted [] = Unit
IsSorted (x ∷ xs) = All (λ y. x ≤ℤ y) xs × IsSorted xs

swap-perm : (x y : ℤ) (rest : List ℤ) → Perm (lower x y ∷ upper x y ∷ rest) (x ∷ y ∷ rest)
swap-perm x y rest = elim (Bool-cases (ltb_ℤ y x)) [
  | inl t ↦ rw t (Perm.swap x y rest)
  | inr f ↦ rw f (Perm.refl (x ∷ y ∷ rest))
]

bubble_pass-perm : (n : ℕ) (xs : List ℤ) → Perm (bubble_pass n xs) xs
unfolding bubble_pass
bubble_pass-perm zero xs = Perm.refl xs
bubble_pass-perm (suc n) [] = Perm.refl []
bubble_pass-perm (suc n) (x ∷ []) = Perm.refl (x ∷ [])
bubble_pass-perm (suc n) (x ∷ y ∷ rest) =
    Perm.trans (Perm.cons (lower x y) (bubble_pass-perm n (upper x y ∷ rest))) (swap-perm x y rest)

bubble_rounds-perm : (n i w : ℕ) (xs : List ℤ) → Perm (bubble_rounds n i w xs) xs
unfolding bubble_rounds
bubble_rounds-perm zero i w xs = Perm.refl xs
bubble_rounds-perm (suc n) i w xs =
    Perm.trans (bubble_rounds-perm n (suc i) w (bubble_pass (w - 1 - i) xs))
      (bubble_pass-perm (w - 1 - i) xs)

-- What one pass makes of `x ∷ ys`: the greatest value, carried to the end, and the rest.
abbrev top : ℤ → List ℤ → ℤ
top x [] = x
top x (y ∷ ys) = top (upper x y) ys

abbrev front : ℤ → List ℤ → List ℤ
front x [] = []
front x (y ∷ ys) = lower x y ∷ front (upper x y) ys

bubble_pass-front :
    (x : ℤ) (ys suf : List ℤ)
    → bubble_pass (length ys) (x ∷ (ys ++ suf)) ≡ front x ys ++ top x ys ∷ suf
unfolding bubble_pass
bubble_pass-front x [] suf = refl
bubble_pass-front x (y ∷ ys) suf = ap (◌∷◌ (lower x y)) (bubble_pass-front (upper x y) ys suf)

length-front : (x : ℤ) (ys : List ℤ) → length (front x ys) ≡ length ys
length-front x [] = refl
length-front x (y ∷ ys) = ap suc (length-front (upper x y) ys)

-- A property that the values of a window have is one of what a pass makes of it.
pass-All :
    (P : ℤ → Type 0) (x : ℤ) (ys : List ℤ) → P x → All P ys → All P (front x ys) × P (top x ys)
pass-All P x [] hx hs = (tt, hx)
pass-All P x (y ∷ ys) hx hs = elim (Bool-cases (ltb_ℤ y x)) [
  | inl t ↦ rw t (let r = pass-All P x ys hx hs.1 in ((hs.0, r.0), r.1))
  | inr f ↦ rw f (let r = pass-All P y ys hs.0 hs.1 in ((hx, r.0), r.1))
]

le_ℤ_trans : (a b c : ℤ) → a ≤ℤ b → b ≤ℤ c → a ≤ℤ c
le_ℤ_trans a b c h k = omega arith

lower-upper : (x y : ℤ) → (x ≤ℤ upper x y) × (lower x y ≤ℤ upper x y)
lower-upper x y = ground arith

front-le-top : (x : ℤ) (ys : List ℤ) → (x ≤ℤ top x ys) × All (λ z. z ≤ℤ top x ys) (front x ys)
front-le-top x [] = (omega arith, tt)
front-le-top x (y ∷ ys) =
    let r = front-le-top (upper x y) ys in
    let t = top (upper x y) ys in
    (
      le_ℤ_trans x (upper x y) t (lower-upper x y).0 r.0,
      (le_ℤ_trans (lower x y) (upper x y) t (lower-upper x y).1 r.0, r.1),
    )

All-both : (P Q : ℤ → Type 0) (xs : List ℤ) → All P xs → All Q xs → All (λ z. P z × Q z) xs
All-both P Q [] hp hq = tt
All-both P Q (x ∷ xs) hp hq = ((hp.0, hq.0), All-both P Q xs hp.1 hq.1)

-- After `i` rounds the last `i` values are sorted, and none before them is greater.
bubble_rounds-IsSorted :
    (n i w : ℕ) (pre suf : List ℤ)
    → length pre ≡ n
    → w ≡ n + i
    → IsSorted suf
    → All (λ z. All (λ s. z ≤ℤ s) suf) pre
    → IsSorted (bubble_rounds n i w (pre ++ suf))
unfolding bubble_rounds
bubble_rounds-IsSorted zero i w [] suf l e sorted below = sorted
bubble_rounds-IsSorted zero i w (x ∷ ys) suf l e sorted below = absurd (omega arith)
bubble_rounds-IsSorted (suc n) i w [] suf l e sorted below = absurd (omega arith)
bubble_rounds-IsSorted (suc n) i w (x ∷ ys) suf l e sorted below =
    let rounds : w - 1 - i ≡ length ys = omega arith in
    let r = pass-All (λ z. All (λ s. z ≤ℤ s) suf) x ys below.0 below.1 in
    rw (rounds, bubble_pass-front x ys suf)
      (bubble_rounds-IsSorted n (suc i) w (front x ys) (top x ys ∷ suf)
        (omega (arith, length-front x ys)) (omega arith) (r.1, sorted)
        (All-both (λ z. z ≤ℤ top x ys) (λ z. All (λ s. z ≤ℤ s) suf) (front x ys)
          (front-le-top x ys).1 r.0))

All-nil : (xs : List ℤ) → All (λ z. All (λ s. z ≤ℤ s) []) xs
All-nil [] = tt
All-nil (x ∷ xs) = (tt, All-nil xs)

-- The sort gives the values of the window in non-decreasing order, each as often as it was there.
pub bubble_sort_lem : (xs : List ℤ) → IsSorted (bubble_sort xs) × Perm (bubble_sort xs) xs
unfolding bubble_sort
bubble_sort_lem xs = (
  subst (λ ys. IsSorted (bubble_rounds (length xs) 0 (length xs) ys)) (append-nil xs)
      (bubble_rounds-IsSorted (length xs) 0 (length xs) xs [] refl (omega arith) tt (All-nil xs)),
  bubble_rounds-perm (length xs) 0 (length xs) xs,
)
