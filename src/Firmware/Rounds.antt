-- ===== src/Firmware/Rounds.antt =====
-- firmware/esp32/src/main.rs: what a soldier keeps to, round after round.
use tiny_io_oi.Prelude.{ℕ, zero, suc, List, Option, true, false, ◌≡◌, refl, sym, ap, ◌∙◌}
use tiny_io_oi.Floats.{Floats}
use tiny_io_oi.Vm.{VmScriptViewer}
use tiny_io_oi.Log.{Wal}
use tiny_io_oi.Node.Tick.Silence.{ticks}
use tiny_io_oi.Node.Tick.Resting.{ticks-Off}
use tiny_io_oi.Router.{WaveformCmd}
use tiny_io_oi.Firmware.{no_clock, EspNow, Soldier, esp_platform, boot, round, rounds}

module _ {E W C : Type 0} (esp_now : EspNow E) (floats : Floats) (wal_ops : Wal W C)
    (viewer : VmScriptViewer) (patience : ℕ)
    (check_matrix : List ℕ → Option (List WaveformCmd)) where
  abbrev loop :
      ℕ
      → Soldier esp_now floats wal_ops viewer patience check_matrix
      → Soldier esp_now floats wal_ops viewer patience check_matrix
  loop = rounds esp_now floats wal_ops viewer patience check_matrix

  rounds-ticks :
      (k : ℕ) (s : Soldier esp_now floats wal_ops viewer patience check_matrix)
      → (loop k s).node
        ≡ ticks
            (esp_platform esp_now floats wal_ops viewer patience check_matrix)
            k
            (λ j. no_clock)
            s.node
  rounds-ticks zero s = refl
  rounds-ticks (suc k) s =
      rounds-ticks k (round esp_now floats wal_ops viewer patience check_matrix s)

  -- Whatever a soldier receives after its boot, whenever it is in safe mode its LED is low.
  pub rounds-low :
      (k : ℕ) (network : E)
      → let s =
          rounds esp_now floats wal_ops viewer patience check_matrix k
            (boot esp_now floats wal_ops viewer patience check_matrix network) in
        s.node.safe_mode ≡ true → s.node.motor ≡ false
  rounds-low k network safe =
      let start = boot esp_now floats wal_ops viewer patience check_matrix network in
      let same = rounds-ticks k start in
      ap (λ n. n.motor) same
      ∙ ticks-Off (esp_platform esp_now floats wal_ops viewer patience check_matrix)
          (λ led. led ≡ false) (λ led. refl) k (λ j. no_clock) start.node (λ safe'. refl)
          (sym (ap (λ n. n.safe_mode) same) ∙ safe)
