-- ===== src/Tests/Files.antt =====
-- Concrete inputs for the theorems on the flash file system, the node macro and the firmware.
use tiny_io_oi.Prelude.{List, [], ◌∷◌, some, true, false, ◌≡◌, inl, inr, refl, arith}
use tiny_io_oi.Flash.{new, read}
use tiny_io_oi.Flash.Contents.{FileOp, perform_all, contents, perform_all-contents}
use tiny_io_oi.Drivers.{MockMotor, MockGpio, mock_motor, mock_gpio, mock_motor_new, mock_gpio_new}
use tiny_io_oi.Vm.{VmError, Outcome, VmStep}
use tiny_io_oi.MacroNode.{
  Field, Item, Bindings, Parts, expand, collect, collect_attrs, run_vm_script, run_from, round,
  exec_step, pwm_routing,
}
use tiny_io_oi.MacroNode.Shutdown.{IsStopped}
use tiny_io_oi.MacroNode.Declared.{IsDeclared}
use tiny_io_oi.MacroNode.Outputs.{run_vm_script-stops, run_vm_script-untouched}
use text.Mathlib.TextEquality.{eq_iff}
use tiny_io_oi.Tests.Boards.{viewer_of}

abbrev log_ops : List FileOp
log_ops =
    FileOp.append_op "wal" (1 ∷ [])
    ∷ FileOp.write_op "state" (7 ∷ [])
    ∷ FileOp.append_op "wal" (2 ∷ [])
    ∷ []

perform_all-contents_example :
    read "wal" (perform_all log_ops new) ≡ contents "wal" log_ops (read "wal" new)
perform_all-contents_example = perform_all-contents "wal" log_ops new

-- A struct with one field that is bound to PWM channel 2.
abbrev wheels : List Field
wheels =
    record {
      name = "wheel";
      attrs =
          record { is_bind = true; parsed = true; channel = some 2; strategy = some "PWM" } ∷ [];
    }
    ∷ []

abbrev bindings : Bindings
bindings = record { pwm = ("wheel", 2) ∷ []; gpio = [] }

one_wheel : expand (Item.named wheels) ≡ some bindings
unfolding expand collect collect_attrs
one_wheel = refl

abbrev parts : Parts MockMotor MockGpio
parts = record { motors = λ k. mock_motor_new; inputs = λ k. mock_gpio_new }

-- Channel 5 is bound to no field.
abbrev astray : List VmStep
astray = VmStep.set_pwm 2 90 ∷ VmStep.set_pwm 5 90 ∷ []

astray_denied :
    (run_vm_script mock_motor mock_gpio bindings (viewer_of astray) [] 9 parts).outcome
    ≡ Outcome.trap VmError.unauthorized_access
unfolding run_vm_script run_from round exec_step pwm_routing
astray_denied = refl

wheel-IsDeclared : IsDeclared wheels "wheel"
wheel-IsDeclared =
    inl (refl, inl (record { binds = refl; parses = refl; has_channel = (2, refl); is_pwm = refl }))

run_vm_script-stops_example :
    IsStopped mock_motor mock_gpio bindings "wheel"
      (run_vm_script mock_motor mock_gpio bindings (viewer_of astray) [] 9 parts).parts
run_vm_script-stops_example =
    run_vm_script-stops mock_motor mock_gpio (viewer_of astray) [] wheels bindings 9 parts
      VmError.unauthorized_access "wheel" one_wheel wheel-IsDeclared astray_denied
      (λ e. ground (arith, e))

lamp-undeclared : IsDeclared wheels "lamp" → ⊥
lamp-undeclared (inl d) = let e : false ≡ true = (eq_iff "wheel" "lamp").1 d.0 in cc
lamp-undeclared (inr d) = d

run_vm_script-untouched_example :
    (run_vm_script mock_motor mock_gpio bindings (viewer_of astray) [] 9 parts).parts.motors "lamp"
    ≡ mock_motor_new
run_vm_script-untouched_example =
    run_vm_script-untouched mock_motor mock_gpio (viewer_of astray) [] wheels bindings 9 parts
      "lamp" one_wheel lamp-undeclared
