-- ===== src/Firmware/Mission.antt =====
-- A script from the calls of C that build it (crates/tiny-io-oi-host/src/ffi.rs), over the line and
-- the bridge of a gateway (crates/tiny-io-oi/src/gateway.rs) and the radio
-- (firmware/esp32/src/main.rs), to the LED of a soldier (crates/tiny-io-oi/src/node.rs).
use tiny_io_oi.Prelude.{subst, sym, ℕ, ◌≤◌, List, [], ◌∷◌, Option, some, true, ◌≡◌, length}
use tiny_io_oi.Floats.{Floats}
use tiny_io_oi.Protocol.{NodeId, OpCode, opcode_byte}
use tiny_io_oi.Drivers.{mock_uart}
use tiny_io_oi.Vm.{VmStep, VmScriptViewer}
use tiny_io_oi.Log.{Wal}
use tiny_io_oi.Router.{WaveformCmd}
use tiny_io_oi.Node.{Platform, Node}
use tiny_io_oi.Node.Tick.{prepare, deliver, tick}
use tiny_io_oi.Node.Missions.{Accepts, Ran, listening, on_message-Ran}
use tiny_io_oi.Gateway.{Archive}
use tiny_io_oi.CoreGateway.{FramingDecoder, read_uart}
use tiny_io_oi.CoreGateway.Relay.{DecoderLaws, Message, IsArchived, line_of, waiting}
use tiny_io_oi.Ffi.{script_builder_serialize}
use tiny_io_oi.Ffi.Heap.{Heap, Call, Keeps, deref, call, calls, added}
use tiny_io_oi.Ffi.Builder.{ArchiveLaws, script_builder_serialize-Decodes}
use tiny_io_oi.Firmware.{
  no_clock, EspNow, unpack, broadcast_mac, with_peer, esp_network, esp_platform,
}
use tiny_io_oi.Firmware.Delivery.{read_uart-unpack}

-- The message that carries a script.
abbrev pub carrier : NodeId → List ℕ → List ℕ → Message
carrier sender script serialized = record {
  sender = sender;
  opcode = OpCode.vm_script_dispatch;
  payload = script;
  serialized = serialized;
}

module _ {E W C D : Type 0} (esp_now : EspNow E) (floats : Floats) (wal_ops : Wal W C)
    (viewer : VmScriptViewer) (patience : ℕ) (check_matrix : List ℕ → Option (List WaveformCmd))
    (to_bytes : List VmStep → Option (List ℕ)) (check : List ℕ → Option (List VmStep))
    (script_laws : ArchiveLaws to_bytes check viewer) (archive : Archive)
    (decoder_ops : FramingDecoder D) (capacity : ℕ) (IsIdle : D → Type 0)
    (laws : DecoderLaws decoder_ops capacity IsIdle) where
  abbrev soldier_platform : Platform
  soldier_platform = esp_platform esp_now floats wal_ops viewer patience check_matrix

  -- The bytes of a script that C built by its calls, none of which frees the builder, sent as a
  -- message of at most 255 bytes of payload that is archived within the capacity of the decoder, on
  -- the line of a gateway with an idle decoder, are broadcast by the gateway as one message; and a
  -- soldier whose radio receives that message, and that accepts the script from its sender, runs in
  -- that tick exactly the steps that the calls added, with 100 units of fuel, and stops its motor
  -- and broadcasts the exception if they end with an error.
  pub read_uart-Ran :
      (heap : Heap) (cs : List Call) (sender : NodeId) (script serialized : List ℕ) (fuel : ℕ)
      (s : D) (e e' : E) (src : NodeId) (n : Node soldier_platform)
      → Keeps (length heap) cs
      → (script_builder_serialize to_bytes
          (deref (some (length heap)) (calls cs (call Call.create heap)))
          true).bytes
        ≡ some script
      → IsIdle s
      → IsArchived archive capacity (carrier sender script serialized)
      → length script ≤ 255
      → length (line_of (carrier sender script serialized ∷ [])) ≤ fuel
      → let message = opcode_byte OpCode.vm_script_dispatch ∷ script in
        esp_now.receive (prepare soldier_platform 0 n).network ≡ (e', some (src, message))
        → Accepts soldier_platform src script (listening soldier_platform no_clock e' n)
        → ((read_uart
              (esp_network esp_now)
              mock_uart
              archive
              decoder_ops
              fuel
              (waiting (line_of (carrier sender script serialized ∷ [])) [] s e)).network
            ≡ (esp_now.send (with_peer esp_now e) broadcast_mac message).0)
          × Ran soldier_platform
              (added (length heap) cs)
              (listening soldier_platform no_clock e' n)
              (tick soldier_platform no_clock n)
  unfolding tick
  read_uart-Ran heap cs sender script serialized fuel s e e' src n keeps wrote idle archived short
        enough received accepts =
      let m = carrier sender script serialized in
      let delivered =
        read_uart-unpack esp_now archive decoder_ops capacity IsIdle laws m fuel s e src idle
          archived short enough in
      let unpacked : unpack esp_now (some (src, opcode_byte OpCode.vm_script_dispatch ∷ script)) 256
          ≡ some (src, OpCode.vm_script_dispatch, script) =
        delivered.1 in
      let d =
        (script_builder_serialize-Decodes to_bytes check viewer script_laws heap cs script keeps
          wrote).1 in
      (
        delivered.0,
        rw received (
            subst
              (λ o.
                Ran soldier_platform (added (length heap) cs)
                  (listening soldier_platform no_clock e' n)
                  (deliver soldier_platform no_clock o (listening soldier_platform no_clock e' n)))
              (sym unpacked)
              (on_message-Ran soldier_platform no_clock src script (added (length heap) cs)
                (listening soldier_platform no_clock e' n) accepts d)),
      )
