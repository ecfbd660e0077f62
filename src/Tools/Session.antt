-- ===== src/Tools/Session.antt =====
-- crates/tiny-io-oi-tools/src/bin/verify_geopin.rs and crates/tiny-io-oi/src/gateway.rs: from the
-- tool over the serial line to the radio of a gateway.
use tiny_io_oi.Prelude.{
  ℕ, ◌≤◌, List, [], ◌∷◌, ◌++◌, some, true, ◌≡◌, refl, sym, ap, ◌∙◌, length, append_nil,
}
use tiny_io_oi.Protocol.{OpCode}
use tiny_io_oi.Traits.{Network}
use tiny_io_oi.Drivers.{mock_uart}
use tiny_io_oi.Gateway.{Archive, header}
use tiny_io_oi.CoreGateway.{FramingDecoder, read_uart}
use tiny_io_oi.CoreGateway.Relay.{
  DecoderLaws, Message, IsArchived, line_of, waiting, read_uart-relays,
}
use tiny_io_oi.Tools.{Port, Sent, and_send, send_frame, transmit_all, everyone, std_bytecode}

-- A port that keeps what it is given.
abbrev pub open_port : Port (List ℕ)
open_port = record { write_all = λ line bytes. (line ++ bytes, true); flush = λ line. (line, true) }

module _ {N D : Type 0} (network_ops : Network N) (archive : Archive)
    (decoder_ops : FramingDecoder D) (capacity : ℕ) (IsIdle : D → Type 0)
    (laws : DecoderLaws decoder_ops capacity IsIdle) where
  abbrev pub heartbeat_message : List ℕ → Message
  heartbeat_message serialized = record {
    sender = everyone;
    opcode = OpCode.heartbeat;
    payload = [];
    serialized = serialized;
  }

  abbrev pub bytecode_message : List ℕ → Message
  bytecode_message serialized = record {
    sender = everyone;
    opcode = OpCode.vm_script_dispatch;
    payload = std_bytecode;
    serialized = serialized;
  }

  send_frame-written :
      (line : List ℕ) (m : List ℕ) (serialized : List ℕ)
      → archive.to_bytes everyone m ≡ some serialized
      → send_frame open_port archive line everyone m
        ≡ Sent.ok (line ++ (header (length serialized) ++ serialized))
  unfolding send_frame
  send_frame-written line m serialized e = rw (e, send_frame) refl

  -- On a port that takes every byte, and with an archive that writes and reads back the tool's two
  -- frames within the capacity of the gateway's decoder, what the tool transmits makes a gateway with
  -- an idle decoder broadcast a heartbeat, and then the tool's bytecode as a script dispatch.
  pub transmit_all-relays :
      (first second : List ℕ) (fuel : ℕ) (s : D) (n : N)
      → IsArchived archive capacity (heartbeat_message first)
      → IsArchived archive capacity (bytecode_message second)
      → IsIdle s
      → length (line_of (heartbeat_message first ∷ bytecode_message second ∷ [])) ≤ fuel
      → let ms = heartbeat_message first ∷ bytecode_message second ∷ [] in
        let line = line_of ms in
        let beat = (network_ops.broadcast n OpCode.heartbeat []).0 in
        (transmit_all open_port archive [] ≡ Sent.ok line)
        × ((read_uart network_ops mock_uart archive decoder_ops fuel (waiting line [] s n)).network
            ≡ (network_ops.broadcast beat OpCode.vm_script_dispatch std_bytecode).0)
  unfolding transmit_all
  transmit_all-relays first second fuel s n a b idle enough =
      let ms = heartbeat_message first ∷ bytecode_message second ∷ [] in
      let r =
        read_uart-relays network_ops archive decoder_ops capacity IsIdle laws ms [] fuel s n idle
          (a, (b, tt)) enough in
      let packet : List ℕ → List ℕ = λ x. header (length x) ++ x in
      (
        ap
              (λ r.
                and_send open_port archive r
                  (λ p. send_frame open_port archive p everyone (0x40 ∷ std_bytecode)))
              (send_frame-written [] (0x04 ∷ []) first a.written)
            ∙ send_frame-written (packet first) (0x40 ∷ std_bytecode) second b.written
            ∙ ap (λ x. Sent.ok (packet first ++ x)) (sym (append_nil (packet second))),
        ap (λ g. g.network) r.2,
      )
