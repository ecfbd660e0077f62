-- ===== src/Board.antt =====
-- crates/tiny-io-oi/src/std_impl.rs: what `StdExecutor::execute_step` runs on: a board, and the state
-- that a step changes.
use tiny_io_oi.Prelude.{ℕ, Option, Bool}
use tiny_io_oi.Traits.{Motor, Adc, Network}
use tiny_io_oi.Floats.{Floats}
use tiny_io_oi.Gossip.{GossipContext}
use tiny_io_oi.Vm.{VmError, Outcome}

-- What a board supplies: its drivers, its floats, and, as the model's bound on the loops that wait
-- for the clock, the number of readings that one of them may take; and whether the crate is built
-- with the feature `ptp`.
pub record Board : Type 1 where
  pub M : Type 0
  pub A : Type 0
  pub N : Type 0
  pub motor_ops : Motor M
  pub adc_ops : Adc A
  pub network_ops : Network N
  pub floats : Floats
  pub patience : ℕ
  pub ptp : Bool

-- The state that a step works on. `clock` gives the readings of `PTP_CLOCK.get_time_us()` to come.
pub record Machine (M N : Type 0) : Type 0 where
  pub motor : M
  pub gossip : Option (GossipContext N)
  pub clock : ℕ → ℕ

module _ (board : Board) where
  open board use {M, N, motor_ops}

  abbrev pub Step : Type 0
  Step = Machine M N × Outcome

  abbrev pub fail : Machine M N → VmError → Step
  fail mc e = (mc, Outcome.trap e)

  -- `motor.stop(); return Err(e)`.
  abbrev pub shut_down : Machine M N → VmError → Step
  shut_down mc e = (record mc { motor = motor_ops.stop mc.motor }, Outcome.trap e)

  abbrev pub drive : Machine M N → ℕ → Step
  drive mc speed = (record mc { motor = motor_ops.set_speed mc.motor speed }, Outcome.done)
