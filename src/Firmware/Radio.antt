-- ===== src/Firmware/Radio.antt =====
-- firmware/esp32/src/main.rs: what one node broadcasts over ESP-NOW and another one receives.
use tiny_io_oi.Prelude.{take_all, ℕ, ◌≤◌, List, ◌∷◌, some, ◌≡◌, ap, ◌∙◌, arith, min, length, take}
use mathlib.Core.Path.{ap₂}
use tiny_io_oi.Protocol.{NodeId, OpCode, opcode_byte}
use tiny_io_oi.Protocol.Codes.{opcode-round_trip}
use tiny_io_oi.Firmware.{EspNow, broadcast_mac, with_peer, esp_broadcast, unpack}

take_whole : (size : ℕ) (xs : List ℕ) → length xs ≤ size → take (min (length xs) size) xs ≡ xs
take_whole size xs le = ap (λ n. take n xs) (omega arith) ∙ take_all xs

-- A payload of at most 255 bytes that fits the receiver's buffer is sent as one message to all, and a
-- node that receives that message from some sender gets the same opcode and payload.
pub esp_broadcast-unpack :
    {E : Type 0} (esp_now : EspNow E) (e : E) (opcode : OpCode) (payload : List ℕ) (src : NodeId)
    (size : ℕ)
    → length payload ≤ 255
    → length payload ≤ size
    → let message = opcode_byte opcode ∷ payload in
      (esp_broadcast esp_now e opcode payload
        ≡ esp_now.send (with_peer esp_now e) broadcast_mac message)
      × (unpack esp_now (some (src, message)) size ≡ some (src, opcode, payload))
unfolding esp_broadcast
esp_broadcast-unpack esp_now e opcode payload src size short fits = (
  ground arith,
  ap₂ (λ o p. some (src, o, p)) (opcode-round_trip.0 opcode) (take_whole size payload fits),
)
