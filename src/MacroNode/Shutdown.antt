-- ===== src/MacroNode/Shutdown.antt =====
-- crates/tiny-io-oi-macros/src/lib.rs: what the motors of an expanded node do.
use Prim.Native.String.{String}
use text.Mathlib.Text.{◌==◌ as str_eq}
use text.Mathlib.TextEquality.{eq_iff}
use tiny_io_oi.Prelude.{
  ℕ, zero, suc, ◌-◌, List, [], ◌∷◌, Option, none, some, Bool, true, false, ◌≡◌, ◌≢◌, ◌⊎◌, inl, inr,
  refl, sym, ◌==◌, if_rule, Bool-cases,
}
use tiny_io_oi.Traits.{Motor, Gpio}
use tiny_io_oi.Vm.{VmError, Outcome, VmStep, VmScriptViewer}
use tiny_io_oi.MacroNode.{
  Bindings, Parts, NodeRun, set_field, shutdown_all, halt, pwm_routing, gpio_routing, exec_step,
  round, and_then, run_from, run_vm_script,
}

-- Is the field one of the bound ones?
abbrev pub IsBound : String → List (String × ℕ) → Type 0
IsBound name [] = ⊥
IsBound name ((k, ch) ∷ rest) = (k ≡ name) ⊎ IsBound name rest

module _ {M G : Type 0} (motor_ops : Motor M) (gpio_ops : Gpio G) (bindings : Bindings) where
  -- The last thing done to the motor was to set it to speed 0.
  abbrev pub IsStopped : String → Parts M G → Type 0
  IsStopped name p = (m : M) × (p.motors name ≡ motor_ops.set_speed m 0)

  set_field-IsStopped :
      (name k : String) (p : Parts M G)
      → IsStopped name p
      → IsStopped name (set_field motor_ops gpio_ops bindings k 0 p)
  unfolding set_field
  set_field-IsStopped name k p (m, e) = elim (Bool-cases (str_eq name k)) [
    | inl t ↦ (p.motors name, rw t refl)
    | inr f ↦ (m, rw f e)
  ]

  shutdown_all-keeps :
      (fields : List (String × ℕ)) (name : String) (p : Parts M G)
      → IsStopped name p
      → IsStopped name (shutdown_all motor_ops gpio_ops bindings fields p)
  unfolding shutdown_all
  shutdown_all-keeps [] name p s = s
  shutdown_all-keeps ((k, ch) ∷ rest) name p s =
      shutdown_all-keeps rest name _ (set_field-IsStopped name k p s)

  shutdown_all-IsStopped :
      (fields : List (String × ℕ)) (name : String) (p : Parts M G)
      → IsBound name fields
      → IsStopped name (shutdown_all motor_ops gpio_ops bindings fields p)
  unfolding shutdown_all set_field
  shutdown_all-IsStopped [] name p b = absurd b
  shutdown_all-IsStopped ((k, ch) ∷ rest) name p (inl e) =
      shutdown_all-keeps rest name _ (p.motors name, rw (sym e, (eq_iff k k).1 refl) refl)
  shutdown_all-IsStopped ((k, ch) ∷ rest) name p (inr b) = shutdown_all-IsStopped rest name _ b

  -- How a run may leave the motors.
  pub record Fails (r : NodeRun M G) : Type 0 where
    pub stops :
        (name : String) (e : VmError)
        → r.outcome ≡ Outcome.trap e
        → e ≢ VmError.buffer_overflow
        → IsBound name bindings.pwm
        → IsStopped name r.parts
    pub ends : r.outcome ≢ Outcome.waiting

  halt-Fails :
      (fuel : ℕ) (p : Parts M G) (e : VmError) → Fails (halt motor_ops gpio_ops bindings fuel p e)
  halt-Fails fuel p e = record {
    stops = λ name e' o ne b. shutdown_all-IsStopped bindings.pwm name p b;
    ends = λ o. cc;
  }

  done-Fails :
      (fuel : ℕ) (p : Parts M G) → Fails (record { fuel = fuel; parts = p; outcome = Outcome.done })
  done-Fails fuel p = record { stops = λ name e o ne b. absurd cc; ends = λ o. cc }

  pwm_routing-Fails :
      (fields : List (String × ℕ)) (channel speed fuel : ℕ) (p : Parts M G)
      → Fails (pwm_routing motor_ops gpio_ops bindings fields channel speed fuel p)
  unfolding pwm_routing
  pwm_routing-Fails [] channel speed fuel p = halt-Fails fuel p _
  pwm_routing-Fails ((name, ch) ∷ rest) channel speed fuel p =
      if_rule Fails (ch == channel) _ _ (λ t. done-Fails fuel _)
        (λ f. pwm_routing-Fails rest channel speed fuel p)

  gpio_routing-Fails :
      (fields : List (String × ℕ)) (authorized : Bool) (pin expected fuel : ℕ) (p : Parts M G)
      → Fails (gpio_routing motor_ops gpio_ops bindings fields authorized pin expected fuel p)
  unfolding gpio_routing
  gpio_routing-Fails [] authorized pin expected fuel p =
      if_rule Fails authorized _ _ (λ t. done-Fails fuel p) (λ f. halt-Fails fuel p _)
  gpio_routing-Fails ((name, ch) ∷ rest) authorized pin expected fuel p =
      if_rule Fails (pin == ch) _ _
        (λ t.
          if_rule Fails (gpio_ops.read_pin (p.inputs name) pin == expected) _ _
            (λ u. gpio_routing-Fails rest true pin expected fuel p) (λ u. halt-Fails fuel p _))
        (λ f. gpio_routing-Fails rest authorized pin expected fuel p)

  exec_step-Fails :
      (s : VmStep) (fuel : ℕ) (p : Parts M G)
      → Fails (exec_step motor_ops gpio_ops bindings s fuel p)
  unfolding exec_step
  exec_step-Fails (VmStep.set_pwm channel speed) fuel p =
      pwm_routing-Fails bindings.pwm channel speed fuel p
  exec_step-Fails (VmStep.delay ticks) fuel p = done-Fails _ p
  exec_step-Fails (VmStep.assert_or_yield pin expected) fuel p =
      gpio_routing-Fails bindings.gpio false pin expected fuel p

  module _ (viewer : VmScriptViewer) (script : List ℕ) where
    round-Fails :
        (i fuel : ℕ) (p : Parts M G)
        → Fails (round motor_ops gpio_ops bindings viewer script i fuel p)
    unfolding round
    round-Fails i fuel p =
        if_rule Fails (fuel == 0) _ _ (λ t. halt-Fails fuel p _)
          (λ f. go (viewer.get_step script i))
      where
        go :
            (o : Option VmStep)
            → let r : NodeRun M G = elim o [
              | none ↦ record {
                fuel = fuel - 1;
                parts = p;
                outcome = Outcome.trap VmError.buffer_overflow;
              }
              | some s ↦ exec_step motor_ops gpio_ops bindings s (fuel - 1) p
            ] in
              Fails r
        go none = record { stops = λ name e o ne b. absurd (ne cc); ends = λ o. cc }
        go (some s) = exec_step-Fails s (fuel - 1) p

    and_then-Fails :
        (r : NodeRun M G) (rest : ℕ → Parts M G → NodeRun M G)
        → Fails r
        → ((fuel : ℕ) (p : Parts M G) → Fails (rest fuel p))
        → Fails (and_then motor_ops gpio_ops bindings viewer script r rest)
    and_then-Fails r rest f later = go r.outcome refl
      where
        go :
            (o : Outcome)
            → r.outcome ≡ o
            → Fails (elim o [
              | Outcome.done ↦ rest r.fuel r.parts
              | Outcome.trap e ↦ r
              | Outcome.waiting ↦ r
            ])
        go Outcome.done e = later r.fuel r.parts
        go (Outcome.trap x) e = f
        go Outcome.waiting e = f

    run_vm_script-Fails :
        (fuel : ℕ) (p : Parts M G)
        → Fails (run_vm_script motor_ops gpio_ops bindings viewer script fuel p)
    unfolding run_vm_script
    run_vm_script-Fails fuel p = go (viewer.step_count script) 0 fuel p
      where
        go :
            (n i fuel : ℕ) (p : Parts M G)
            → Fails (run_from motor_ops gpio_ops bindings viewer script n i fuel p)
        go zero i fuel p = done-Fails fuel p
        go (suc n) i fuel p =
            and_then-Fails (round motor_ops gpio_ops bindings viewer script i fuel p) _
              (round-Fails i fuel p) (λ fuel' p'. go n (suc i) fuel' p')

    -- When a run of a script on a node that was expanded from a struct ends with an error other than
    -- `BufferOverflow`, the last thing done to every field that is bound to a PWM was to set its speed
    -- to 0.
    pub run_vm_script-IsStopped :
        (fuel : ℕ) (p : Parts M G) (e : VmError) (name : String)
        → let r = run_vm_script motor_ops gpio_ops bindings viewer script fuel p in
          r.outcome ≡ Outcome.trap e
          → e ≢ VmError.buffer_overflow
          → IsBound name bindings.pwm
          → IsStopped name r.parts
    run_vm_script-IsStopped fuel p e name = (run_vm_script-Fails fuel p).stops name e
