-- ===== src/Vm/Viewer.antt =====
-- What the interpreter and the static verifier rely on of io_oi_core's script viewer.
use tiny_io_oi.Prelude.{ℕ, List, ◌≡◌, length, get_elem?}
use tiny_io_oi.Vm.{VmStep, VmScriptViewer}

-- The viewer reads the bytes as the script of these steps: it counts them, and gives each by its
-- index and none past the end.
pub record Decodes (viewer : VmScriptViewer) (script : List ℕ) (steps : List VmStep) : Type 0 where
  pub counted : viewer.step_count script ≡ length steps
  pub indexed : (i : ℕ) → viewer.get_step script i ≡ get_elem? steps i
