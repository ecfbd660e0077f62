-- ===== src/Firmware/Delivery.antt =====
-- crates/tiny-io-oi/src/gateway.rs and firmware/esp32/src/main.rs: a message from the serial line of a
-- gateway over the air to a soldier.
use tiny_io_oi.Prelude.{ℕ, ◌≤◌, [], ◌∷◌, some, ◌≡◌, ap, ◌∙◌, arith, length}
use tiny_io_oi.Protocol.{NodeId, opcode_byte}
use tiny_io_oi.Drivers.{mock_uart}
use tiny_io_oi.Gateway.{Archive}
use tiny_io_oi.CoreGateway.{FramingDecoder, read_uart}
use tiny_io_oi.CoreGateway.Relay.{
  DecoderLaws, Message, IsArchived, line_of, waiting, read_uart-relays,
}
use tiny_io_oi.Firmware.{EspNow, broadcast_mac, with_peer, unpack, esp_network}
use tiny_io_oi.Firmware.Radio.{esp_broadcast-unpack}

module _ {E D : Type 0} (esp_now : EspNow E) (archive : Archive) (decoder_ops : FramingDecoder D)
    (capacity : ℕ) (IsIdle : D → Type 0) (laws : DecoderLaws decoder_ops capacity IsIdle) where
  -- A gateway with an idle decoder that reads a message of at most 255 bytes of payload from its
  -- line, archived within the capacity of the decoder, sends one message to all over ESP-NOW; and a
  -- soldier that receives it, from whatever address, takes it for the same opcode and payload.
  pub read_uart-unpack :
      (m : Message) (fuel : ℕ) (s : D) (e : E) (src : NodeId)
      → IsIdle s
      → IsArchived archive capacity m
      → length m.payload ≤ 255
      → length (line_of (m ∷ [])) ≤ fuel
      → let data_sent = opcode_byte m.opcode ∷ m.payload in
        ((read_uart
            (esp_network esp_now)
            mock_uart
            archive
            decoder_ops
            fuel
            (waiting (line_of (m ∷ [])) [] s e)).network
          ≡ (esp_now.send (with_peer esp_now e) broadcast_mac data_sent).0)
        × (unpack esp_now (some (src, data_sent)) 256 ≡ some (src, m.opcode, m.payload))
  read_uart-unpack m fuel s e src idle archived short enough =
      let relayed =
        read_uart-relays (esp_network esp_now) archive decoder_ops capacity IsIdle laws (m ∷ []) []
          fuel s e idle (archived, tt) enough in
      let sent =
        esp_broadcast-unpack esp_now e m.opcode m.payload src 256 short (omega (arith, short)) in
      (ap (λ g. g.network) relayed.2 ∙ ap (λ r. r.0) sent.0, sent.1)
