-- ===== src/MacroNode/Outputs.antt =====
-- crates/tiny-io-oi-macros/src/lib.rs: from the attributes of a struct to what a run of a script does
-- to its fields.
use Prim.Native.String.{String}
use text.Mathlib.Text.{◌==◌ as str_eq}
use text.Mathlib.TextEquality.{eq_iff}
use tiny_io_oi.Prelude.{
  ℕ, zero, suc, ◌-◌, List, [], ◌∷◌, Option, none, some, Bool, true, false, ◌≡◌, ◌≢◌, inl, inr, refl,
  sym, ◌∙◌, ◌==◌, if_rule, ap, ◌&&◌, if◌then◌else◌,
}
use tiny_io_oi.Traits.{Motor, Gpio}
use tiny_io_oi.Vm.{VmError, Outcome, VmStep, VmScriptViewer}
use tiny_io_oi.MacroNode.{
  Attribute, Field, Item, Bindings, Parts, NodeRun, bind_if, expand, collect, collect_attrs, clean,
  clean_attrs, set_field, shutdown_all, halt, pwm_routing, gpio_routing, exec_step, round, run_from,
  run_vm_script,
}
use tiny_io_oi.MacroNode.Shutdown.{IsBound, IsStopped, run_vm_script-IsStopped}
use tiny_io_oi.MacroNode.Declared.{IsDeclared, expand-IsDeclared}

module _ {M G : Type 0} (motor_ops : Motor M) (gpio_ops : Gpio G) (bindings : Bindings)
    (name : String) where
  -- The motor of the field is the one it was.
  abbrev Untouched : Parts M G → NodeRun M G → Type 0
  Untouched p r = r.parts.motors name ≡ p.motors name

  set_field-other :
      (k : String) (speed : ℕ) (p : Parts M G)
      → k ≢ name
      → (set_field motor_ops gpio_ops bindings k speed p).motors name ≡ p.motors name
  unfolding set_field
  set_field-other k speed p ne =
      if_rule (λ m. m ≡ p.motors name) (str_eq name k) (motor_ops.set_speed (p.motors name) speed)
        (p.motors name) (λ t. absurd (ne (sym ((eq_iff name k).0 t)))) (λ f. refl)

  shutdown_all-other :
      (fields : List (String × ℕ)) (p : Parts M G)
      → (IsBound name fields → ⊥)
      → (shutdown_all motor_ops gpio_ops bindings fields p).motors name ≡ p.motors name
  unfolding shutdown_all
  shutdown_all-other [] p free = refl
  shutdown_all-other ((k, ch) ∷ rest) p free =
      shutdown_all-other rest (set_field motor_ops gpio_ops bindings k 0 p) (λ b. free (inr b))
      ∙ set_field-other k 0 p (λ e. free (inl e))

  module _ (free : IsBound name bindings.pwm → ⊥) where
    halt-Untouched :
        (fuel : ℕ) (p : Parts M G) (e : VmError)
        → Untouched p (halt motor_ops gpio_ops bindings fuel p e)
    halt-Untouched fuel p e = shutdown_all-other bindings.pwm p free

    pwm_routing-Untouched :
        (fields : List (String × ℕ)) (channel speed fuel : ℕ) (p : Parts M G)
        → (IsBound name fields → ⊥)
        → Untouched p (pwm_routing motor_ops gpio_ops bindings fields channel speed fuel p)
    unfolding pwm_routing
    pwm_routing-Untouched [] channel speed fuel p other =
        halt-Untouched fuel p VmError.unauthorized_access
    pwm_routing-Untouched ((k, ch) ∷ rest) channel speed fuel p other =
        if_rule (Untouched p) (ch == channel) _ _
          (λ t. set_field-other k speed p (λ e. other (inl e)))
          (λ f. pwm_routing-Untouched rest channel speed fuel p (λ b. other (inr b)))

    gpio_routing-Untouched :
        (fields : List (String × ℕ)) (authorized : Bool) (pin expected fuel : ℕ) (p : Parts M G)
        → Untouched p
            (gpio_routing motor_ops gpio_ops bindings fields authorized pin expected fuel p)
    unfolding gpio_routing
    gpio_routing-Untouched [] authorized pin expected fuel p =
        if_rule (Untouched p) authorized _ _ (λ t. refl)
          (λ f. halt-Untouched fuel p VmError.unauthorized_access)
    gpio_routing-Untouched ((k, ch) ∷ rest) authorized pin expected fuel p =
        if_rule (Untouched p) (pin == ch) _ _
          (λ t.
            if_rule (Untouched p) (gpio_ops.read_pin (p.inputs k) pin == expected) _ _
              (λ u. gpio_routing-Untouched rest true pin expected fuel p)
              (λ u.
                halt-Untouched fuel p
                  (VmError.assertion_failed pin expected (gpio_ops.read_pin (p.inputs k) pin))))
          (λ f. gpio_routing-Untouched rest authorized pin expected fuel p)

    exec_step-Untouched :
        (s : VmStep) (fuel : ℕ) (p : Parts M G)
        → Untouched p (exec_step motor_ops gpio_ops bindings s fuel p)
    unfolding exec_step
    exec_step-Untouched (VmStep.set_pwm channel speed) fuel p =
        pwm_routing-Untouched bindings.pwm channel speed fuel p free
    exec_step-Untouched (VmStep.delay ticks) fuel p = refl
    exec_step-Untouched (VmStep.assert_or_yield pin expected) fuel p =
        gpio_routing-Untouched bindings.gpio false pin expected fuel p

    module _ (viewer : VmScriptViewer) (script : List ℕ) where
      round-Untouched :
          (i fuel : ℕ) (p : Parts M G)
          → Untouched p (round motor_ops gpio_ops bindings viewer script i fuel p)
      unfolding round
      round-Untouched i fuel p =
          if_rule (Untouched p) (fuel == 0) _ _ (λ t. halt-Untouched fuel p VmError.out_of_fuel)
            (λ f. go (viewer.get_step script i))
        where
          go :
              (o : Option VmStep)
              → let r : NodeRun M G = elim o [
                | none ↦ record {
                  fuel = fuel - 1;
                  parts = p;
                  outcome = Outcome.trap VmError.buffer_overflow;
                }
                | some s ↦ exec_step motor_ops gpio_ops bindings s (fuel - 1) p
              ] in
                Untouched p r
          go none = refl
          go (some s) = exec_step-Untouched s (fuel - 1) p

      run_from-Untouched :
          (n i fuel : ℕ) (p : Parts M G)
          → Untouched p (run_from motor_ops gpio_ops bindings viewer script n i fuel p)
      unfolding run_from
      run_from-Untouched zero i fuel p = refl
      run_from-Untouched (suc n) i fuel p =
          let r = round motor_ops gpio_ops bindings viewer script i fuel p in
          go r.outcome (run_from-Untouched n (suc i) r.fuel r.parts ∙ round-Untouched i fuel p)
            (round-Untouched i fuel p)
        where
          go :
              (o : Outcome)
              → let r = round motor_ops gpio_ops bindings viewer script i fuel p in
                let later =
                  run_from motor_ops gpio_ops bindings viewer script n (suc i) r.fuel r.parts in
                Untouched p later
                → Untouched p r
                → Untouched p
                    (elim o [ Outcome.done ↦ later | Outcome.trap e ↦ r | Outcome.waiting ↦ r ])
          go Outcome.done later now = later
          go (Outcome.trap e) later now = now
          go Outcome.waiting later now = now

module _ {M G : Type 0} (motor_ops : Motor M) (gpio_ops : Gpio G) (viewer : VmScriptViewer)
    (script : List ℕ) where
  -- A run of a script on a node that is expanded from a struct leaves the motor of every field as it
  -- was that has no attribute, with a channel, that binds it to a PWM.
  pub run_vm_script-untouched :
      (fields : List Field) (bindings : Bindings) (fuel : ℕ) (p : Parts M G) (name : String)
      → expand (Item.named fields) ≡ some bindings
      → (IsDeclared fields name → ⊥)
      → (run_vm_script motor_ops gpio_ops bindings viewer script fuel p).parts.motors name
        ≡ p.motors name
  unfolding run_vm_script
  run_vm_script-untouched fields bindings fuel p name e other =
      run_from-Untouched motor_ops gpio_ops bindings name
        (λ b. other ((expand-IsDeclared fields bindings name e).0 b)) viewer script
        (viewer.step_count script) 0 fuel p

  -- When a run of a script on a node that is expanded from a struct ends with an error other than
  -- `BufferOverflow`, the last thing done to every field that an attribute, with a channel, binds to
  -- a PWM was to set its speed to 0.
  pub run_vm_script-stops :
      (fields : List Field) (bindings : Bindings) (fuel : ℕ) (p : Parts M G) (e : VmError)
      (name : String)
      → expand (Item.named fields) ≡ some bindings
      → IsDeclared fields name
      → let r = run_vm_script motor_ops gpio_ops bindings viewer script fuel p in
        r.outcome ≡ Outcome.trap e
        → e ≢ VmError.buffer_overflow
        → IsStopped motor_ops gpio_ops bindings name r.parts
  run_vm_script-stops fields bindings fuel p e name expanded declared trapped other =
      run_vm_script-IsStopped motor_ops gpio_ops bindings viewer script fuel p e name trapped other
        ((expand-IsDeclared fields bindings name expanded).1 declared)

collect_attrs-clean :
    (name : String) (attrs : List Attribute) (b : Bindings)
    → collect_attrs name (clean_attrs attrs) b ≡ b
unfolding collect_attrs
collect_attrs-clean name [] b = refl
collect_attrs-clean name (a ∷ attrs) b =
    let kept = clean_attrs attrs in
    if_rule (λ xs. collect_attrs name xs b ≡ b) a.is_bind kept (a ∷ kept)
      (λ t. collect_attrs-clean name attrs b) (λ f. go f (collect_attrs-clean name attrs b))
  where
    go :
        a.is_bind ≡ false
        → collect_attrs name (clean_attrs attrs) b ≡ b
        → collect_attrs name (a ∷ clean_attrs attrs) b ≡ b
    go f later =
        ap
          (λ t.
            collect_attrs name (clean_attrs attrs)
              (if t && a.parsed then bind_if name a.channel a.strategy b else b))
          f
        ∙ later

collect-clean : (fields : List Field) (b : Bindings) → collect (clean fields) b ≡ b
unfolding collect
collect-clean [] b = refl
collect-clean (f ∷ fields) b =
    rw (collect, collect_attrs-clean f.name f.attrs b) (collect-clean fields b)

-- The struct that the macro emits binds nothing any more.
pub expand-clean :
    (fields : List Field)
    → expand (Item.named (clean fields)) ≡ some (record { pwm = []; gpio = [] })
unfolding expand
expand-clean fields = rw (collect-clean fields (record { pwm = []; gpio = [] })) refl
