-- ===== src/Firmware/Builds.antt =====
-- firmware/esp32/src/main.rs: the builds with the features `gateway` and `roadshow`, and the source of
-- random bytes.
use tiny_io_oi.Prelude.{
  ℕ, zero, suc, List, [], Option, Bool, true, false, length, replicate, if◌then◌else◌,
}
use tiny_io_oi.Prelude.Int.{pos}
use tiny_io_oi.Floats.{Floats}
use tiny_io_oi.Traits.{Gpio, Adc}
use tiny_io_oi.Vm.{VmScriptViewer}
use tiny_io_oi.Log.{Wal}
use tiny_io_oi.Node.{Platform, Node, new}
use tiny_io_oi.Node.Tick.{tick}
use tiny_io_oi.Gateway.{Archive}
use tiny_io_oi.CoreGateway.{FramingDecoder, CoreBridge, new as new_bridge, tick as tick_bridge}
use tiny_io_oi.Router.{WaveformCmd, HardwareRouter, new as new_router, apply_waveforms}
use tiny_io_oi.Firmware.{
  EspNow, UsbSerialJtag, EspState, esp_state, esp_state_ops, esp_samples, esp_network, esp_usb,
  esp_motor, esp_outputs, blink, no_clock,
}

-- `custom_getrandom`: every byte of the buffer is 0, and the result is `Ok`.
abbrev pub custom_getrandom : List ℕ → List ℕ × Bool
custom_getrandom buf = (replicate (length buf) 0, true)

-- `__getrandom_v3_custom`, with its result 0.
abbrev pub getrandom_v3_custom : List ℕ → List ℕ × ℕ
getrandom_v3_custom dest = (replicate (length dest) 0, 0)

-- The build `gateway`: a bridge between the USB line and ESP-NOW. Each tick reads at most `fuel`
-- bytes.
module _ {E L D : Type 0} (esp_now : EspNow E) (usb : UsbSerialJtag L) (archive : Archive)
    (decoder_ops : FramingDecoder D) where
  -- The bridge, and the level of the LED after the three blinks.
  abbrev pub gateway_boot : E → L → CoreBridge E L D × Bool
  gateway_boot network line = (
    new_bridge (esp_network esp_now) (esp_usb usb) archive decoder_ops network line,
    blink 3 false,
  )

  abbrev pub gateway_rounds : ℕ → ℕ → CoreBridge E L D → CoreBridge E L D
  gateway_rounds fuel zero g = g
  gateway_rounds fuel (suc k) g =
      gateway_rounds fuel k
        (tick_bridge (esp_network esp_now) (esp_usb usb) archive decoder_ops fuel g)

-- The build `roadshow`: `EspGpio` is the state of `TRIGGER_VIBRATION`, which the ADC reads.
abbrev pub roadshow_gpio : Gpio Bool
roadshow_gpio = record { read_pin = λ triggered pin. 1 }

abbrev pub roadshow_adc : Floats → Adc Bool
roadshow_adc floats = record {
  read_adc_buffer =
      λ triggered pin n. if triggered then esp_samples floats n 0 else replicate n (pos 0);
}

module _ {E W C : Type 0} (esp_now : EspNow E) (floats : Floats) (wal_ops : Wal W C)
    (viewer : VmScriptViewer) (patience : ℕ)
    (check_matrix : List ℕ → Option (List WaveformCmd)) where
  abbrev pub roadshow_platform : Platform
  roadshow_platform = record {
    board = record {
      M = Bool;
      A = Bool;
      N = E;
      motor_ops = esp_motor;
      adc_ops = roadshow_adc floats;
      network_ops = esp_network esp_now;
      floats = floats;
      patience = patience;
      ptp = false;
    };
    S = EspState;
    W = W;
    C = C;
    gpio_ops = roadshow_gpio;
    state_ops = esp_state_ops;
    wal_ops = wal_ops;
    viewer = viewer;
  }

  pub record Exhibit : Type 0 where
    pub node : Node roadshow_platform
    pub router : HardwareRouter Bool Bool

  -- `main` up to its loop; no pin is bound.
  abbrev pub roadshow_boot : E → Exhibit
  roadshow_boot network = record {
    node = new roadshow_platform 2 (replicate 6 2) network (blink 5 false) esp_state false;
    router = new_router 2;
  }

  -- One round of the loop; a pressed button triggers the vibration for good.
  abbrev pub roadshow_round : Bool → Exhibit → Exhibit
  roadshow_round pressed s =
      let triggered = if pressed then true else s.node.gpio in
      record {
        node = tick roadshow_platform no_clock (record s.node { gpio = triggered });
        router = (apply_waveforms esp_outputs check_matrix [] s.router).0;
      }
