-- ===== src/Ffi/Builder.antt =====
-- crates/tiny-io-oi-host/src/ffi.rs: a script from the calls that build it to its run.
use tiny_io_oi.Prelude.{
  length, ℕ, List, ◌∷◌, Option, none, some, true, false, ◌≡◌, ap, subst, arith,
}
use tiny_io_oi.Traits.{Motor, Gpio}
use tiny_io_oi.Vm.{VmStep, VmScriptViewer, MicroVm, run}
use tiny_io_oi.Vm.Viewer.{Decodes}
use tiny_io_oi.Vm.Steps.{exec_steps, run-exec_steps}
use tiny_io_oi.Verifier.{verify_vm_script}
use tiny_io_oi.Ffi.Heap.{Heap, Call, Keeps, deref, call, calls, added, calls-added}
use tiny_io_oi.Ffi.{Verdict, script_builder_serialize, verdict, rust_verify_vm_script_bytecode}

-- What the archives of io_oi_core and rkyv promise: the viewer and the check read back what was
-- archived, and the viewer agrees with the check.
pub record ArchiveLaws (to_bytes : List VmStep → Option (List ℕ))
    (check : List ℕ → Option (List VmStep)) (viewer : VmScriptViewer) : Type 0 where
  pub checked :
      (steps : List VmStep) (bytes : List ℕ)
      → to_bytes steps ≡ some bytes
      → check bytes ≡ some steps
  pub viewed :
      (steps : List VmStep) (bytes : List ℕ) → check bytes ≡ some steps → Decodes viewer bytes steps

module _ (to_bytes : List VmStep → Option (List ℕ)) (check : List ℕ → Option (List VmStep))
    (viewer : VmScriptViewer) (laws : ArchiveLaws to_bytes check viewer) where
  serialized :
      (o : Option (List ℕ)) (steps : List VmStep) (bytes : List ℕ)
      → (script_builder_serialize (λ s. o) (some (record { steps = steps })) true).bytes
        ≡ some bytes
      → o ≡ some bytes
  serialized none steps bytes h = absurd cc
  serialized (some bs) steps bytes h = h

  -- What was serialized is the steps that the calls added.
  pub script_builder_serialize-Decodes :
      (heap : Heap) (cs : List Call) (script : List ℕ)
      → Keeps (length heap) cs
      → (script_builder_serialize to_bytes
          (deref (some (length heap)) (calls cs (call Call.create heap)))
          true).bytes
        ≡ some script
      → (check script ≡ some (added (length heap) cs))
        × Decodes viewer script (added (length heap) cs)
  script_builder_serialize-Decodes heap cs script keeps h =
      let steps = added (length heap) cs in
      let wrote : to_bytes steps ≡ some script = serialized (to_bytes steps) steps script (
        subst (λ x. (script_builder_serialize to_bytes x true).bytes ≡ some script)
          (calls-added heap cs keeps) h) in
      let known = laws.checked steps script wrote in (known, laws.viewed steps script known)

  -- Where the archive reads back what it wrote, at least one byte, the bytes that
  -- `script_builder_serialize` returns for a new builder, after any calls of which none frees it,
  -- run as exactly the steps that the calls with its pointer added, in their order, and get their
  -- verdict from `rust_verify_vm_script_bytecode`.
  pub script_builder_serialize-runs :
      {M G : Type 0} (motor_ops : Motor M) (gpio_ops : Gpio G) (gpio : G) (vm : MicroVm) (m : M)
      (heap : Heap) (cs : List Call) (b : ℕ) (bs : List ℕ) (limit : ℕ)
      → Keeps (length heap) cs
      → (script_builder_serialize to_bytes
          (deref (some (length heap)) (calls cs (call Call.create heap)))
          true).bytes
        ≡ some (b ∷ bs)
      → (run motor_ops gpio_ops viewer (b ∷ bs) gpio vm m
          ≡ exec_steps motor_ops gpio_ops gpio (added (length heap) cs) vm m)
        × (rust_verify_vm_script_bytecode check (some (b ∷ bs)) limit true
            ≡ verdict (verify_vm_script (added (length heap) cs) limit))
  unfolding rust_verify_vm_script_bytecode
  script_builder_serialize-runs motor_ops gpio_ops gpio vm m heap cs b bs limit keeps h =
      let steps = added (length heap) cs in
      let known = script_builder_serialize-Decodes heap cs (b ∷ bs) keeps h in
      (
        run-exec_steps motor_ops gpio_ops gpio viewer (b ∷ bs) steps vm m known.1,
        checked steps (check (b ∷ bs)) known.0,
      )
    where
      checked :
          (steps : List VmStep) (o : Option (List VmStep))
          → o ≡ some steps
          → let v : Verdict = elim o [
            | none ↦ record { out_safe = some false; out_report_len = some 0; report = none }
            | some steps ↦ verdict (verify_vm_script steps limit)
          ] in
            v ≡ verdict (verify_vm_script steps limit)
      checked steps none e = absurd cc
      checked steps (some xs) e = ap (λ x. verdict (verify_vm_script x limit)) (ground (arith, e))
