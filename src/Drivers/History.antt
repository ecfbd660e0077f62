-- ===== src/Drivers/History.antt =====
-- crates/tiny-io-oi/src/drivers.rs: the speeds that the mock motor has been set to, added up.
use tiny_io_oi.Prelude.{ℕ, ◌+◌, List, [], ◌∷◌, ◌++◌, ◌≡◌, arith}
use tiny_io_oi.Drivers.{MockMotor}

abbrev pub sum : List ℕ → ℕ
sum [] = 0
sum (x ∷ xs) = x + sum xs

pub sum-append_one : (xs : List ℕ) (v : ℕ) → sum (xs ++ v ∷ []) ≡ sum xs + v
sum-append_one [] v = omega arith
sum-append_one (x ∷ xs) v = omega (arith, sum-append_one xs v)

-- The work that the motor has been told to do so far.
abbrev pub work : MockMotor → ℕ
work m = sum m.history
