-- ===== src/MacroNode.antt =====
-- crates/tiny-io-oi-macros/src/lib.rs: `#[io_oi_node]`. The macro collects the bindings of a struct's
-- fields, and expands to the method `run_vm_script`; what syn parsed is its input here.
pub mod Shutdown
pub mod Attributes
pub mod Declared
pub mod Outputs
use Prim.Native.String.{String}
use text.Mathlib.Text.{◌==◌ as str_eq}
use tiny_io_oi.Prelude.{
  ℕ, zero, suc, ◌-◌, List, [], ◌∷◌, ◌++◌, Option, none, some, Bool, true, false, ◌&&◌, min, ◌==◌,
  if◌then◌else◌,
}
use tiny_io_oi.Traits.{Motor, Gpio}
use tiny_io_oi.Vm.{VmError, Outcome, VmStep, VmScriptViewer}

-- An attribute of a field: is its path `bind`, did its arguments parse, and what they set.
pub record Attribute : Type 0 where
  pub is_bind : Bool
  pub parsed : Bool
  pub channel : Option ℕ
  pub strategy : Option String

pub record Field : Type 0 where
  pub name : String
  pub attrs : List Attribute

-- What the macro stands on. Only a struct with named fields is expanded.
pub data Item : Type 0 where
  named : List Field → Item
  tuple_or_unit not_a_struct : Item

-- `pwm_fields` and `gpio_fields`.
pub record Bindings : Type 0 where
  pub pwm : List (String × ℕ)
  pub gpio : List (String × ℕ)

abbrev pub bind : String → ℕ → String → Bindings → Bindings
bind name ch strat b =
    if str_eq strat "PWM"
    then record b { pwm = b.pwm ++ (name, ch) ∷ [] }
    else (if str_eq strat "GPIO" then record b { gpio = b.gpio ++ (name, ch) ∷ [] } else b)

-- `if let (Some(ch), Some(strat))`.
abbrev pub bind_if : String → Option ℕ → Option String → Bindings → Bindings
bind_if name (some ch) (some strat) b = bind name ch strat b
bind_if name _ _ b = b

unfoldable pub collect_attrs : String → List Attribute → Bindings → Bindings
collect_attrs name [] b = b
collect_attrs name (a ∷ attrs) b =
    collect_attrs name attrs
      (if a.is_bind && a.parsed then bind_if name a.channel a.strategy b else b)

unfoldable pub collect : List Field → Bindings → Bindings
unfolding collect_attrs
collect [] b = b
collect (f ∷ fields) b = collect fields (collect_attrs f.name f.attrs b)

-- The bindings of an item, or a compile error.
unfoldable pub expand : Item → Option Bindings
unfolding collect
expand (Item.named fields) = some (collect fields (record { pwm = []; gpio = [] }))
expand Item.tuple_or_unit = none
expand Item.not_a_struct = none

-- The fields of the struct that is emitted: without the attributes named `bind`.
abbrev pub clean_attrs : List Attribute → List Attribute
clean_attrs [] = []
clean_attrs (a ∷ attrs) = let kept = clean_attrs attrs in if a.is_bind then kept else a ∷ kept

abbrev pub clean : List Field → List Field
clean [] = []
clean (f ∷ fields) = record f { attrs = clean_attrs f.attrs } ∷ clean fields

-- The fields of the struct, by name: motors and inputs.
pub record Parts (M G : Type 0) : Type 0 where
  pub motors : String → M
  pub inputs : String → G

pub record NodeRun (M G : Type 0) : Type 0 where
  pub fuel : ℕ
  pub parts : Parts M G
  pub outcome : Outcome

module _ {M G : Type 0} (motor_ops : Motor M) (gpio_ops : Gpio G) (bindings : Bindings) where
  -- `self.#field_name.set_speed(speed)`.
  unfoldable pub set_field : String → ℕ → Parts M G → Parts M G
  set_field name speed p = record p {
    motors = λ k. if str_eq k name then motor_ops.set_speed (p.motors k) speed else p.motors k;
  }

  -- The statements of `safe_shutdown`, one for each bound PWM field.
  unfoldable pub shutdown_all : List (String × ℕ) → Parts M G → Parts M G
  unfolding set_field
  shutdown_all [] p = p
  shutdown_all ((name, ch) ∷ rest) p = shutdown_all rest (set_field name 0 p)

  abbrev pub safe_shutdown : Parts M G → Parts M G
  safe_shutdown p = shutdown_all bindings.pwm p

  -- `#safe_shutdown return Err(e)`.
  abbrev pub halt : ℕ → Parts M G → VmError → NodeRun M G
  halt fuel p e = record { fuel = fuel; parts = safe_shutdown p; outcome = Outcome.trap e }

  -- The arms of `match *channel`: the first one with the channel is taken.
  unfoldable pub pwm_routing : List (String × ℕ) → ℕ → ℕ → ℕ → Parts M G → NodeRun M G
  unfolding shutdown_all
  pwm_routing [] channel speed fuel p = halt fuel p VmError.unauthorized_access
  pwm_routing ((name, ch) ∷ rest) channel speed fuel p =
      let later = pwm_routing rest channel speed fuel p in
      if ch == channel
      then record { fuel = fuel; parts = set_field name speed p; outcome = Outcome.done }
      else later

  -- The `if`s of the inputs, one after the other, and the test of `authorized`.
  unfoldable pub gpio_routing : List (String × ℕ) → Bool → ℕ → ℕ → ℕ → Parts M G → NodeRun M G
  unfolding shutdown_all
  gpio_routing [] authorized pin expected fuel p =
      if authorized
      then record { fuel = fuel; parts = p; outcome = Outcome.done }
      else halt fuel p VmError.unauthorized_access
  gpio_routing ((name, ch) ∷ rest) authorized pin expected fuel p =
      let actual = gpio_ops.read_pin (p.inputs name) pin in
      let matched = gpio_routing rest true pin expected fuel p in
      let passed = gpio_routing rest authorized pin expected fuel p in
      if pin == ch
      then (if actual == expected
          then matched
          else halt fuel p (VmError.assertion_failed pin expected actual))
      else passed

  -- The `match step` of the expanded loop.
  unfoldable pub exec_step : VmStep → ℕ → Parts M G → NodeRun M G
  unfolding pwm_routing gpio_routing
  exec_step (VmStep.set_pwm channel speed) fuel p = pwm_routing bindings.pwm channel speed fuel p
  exec_step (VmStep.delay ticks) fuel p = record {
    fuel = fuel - min ticks fuel;
    parts = p;
    outcome = Outcome.done;
  }
  exec_step (VmStep.assert_or_yield pin expected) fuel p =
      gpio_routing bindings.gpio false pin expected fuel p

  module _ (viewer : VmScriptViewer) (script : List ℕ) where
    -- One round of the expanded loop; `?` on a step that does not decode returns at once.
    unfoldable pub round : ℕ → ℕ → Parts M G → NodeRun M G
    unfolding exec_step
    round i fuel p =
        if fuel == 0 then halt fuel p VmError.out_of_fuel else elim (viewer.get_step script i) [
          | none ↦ record {
            fuel = fuel - 1;
            parts = p;
            outcome = Outcome.trap VmError.buffer_overflow;
          }
          | some s ↦ exec_step s (fuel - 1) p
        ]

    -- The rest of the loop runs only after a round without error.
    abbrev pub and_then : NodeRun M G → (ℕ → Parts M G → NodeRun M G) → NodeRun M G
    and_then r rest = elim r.outcome [
      | Outcome.done ↦ rest r.fuel r.parts
      | Outcome.trap e ↦ r
      | Outcome.waiting ↦ r
    ]

    unfoldable pub run_from : ℕ → ℕ → ℕ → Parts M G → NodeRun M G
    unfolding round
    run_from zero i fuel p = record { fuel = fuel; parts = p; outcome = Outcome.done }
    run_from (suc n) i fuel p = and_then (round i fuel p) (λ fuel' p'. run_from n (suc i) fuel' p')

    unfoldable pub run_vm_script : ℕ → Parts M G → NodeRun M G
    unfolding run_from
    run_vm_script fuel p = run_from (viewer.step_count script) 0 fuel p
