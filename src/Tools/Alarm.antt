-- ===== src/Tools/Alarm.antt =====
-- crates/tiny-io-oi-tools/src/bin/verify_geopin.rs and crates/tiny-io-oi/src/gateway.rs: from the radio
-- of a gateway over the serial line to the tool.
use tiny_io_oi.Prelude.{
  ℕ, ◌-◌, ◌^◌, List, [], ◌∷◌, Option, Bool, false, ◌||◌, ◌≡◌, refl, ap, ◌∙◌, length, All, map,
}
use mathlib.Core.Path.{ap₂}
use tiny_io_oi.Protocol.{OpCode, opcode_byte, same_opcode}
use tiny_io_oi.Protocol.Codes.{opcode-round_trip}
use tiny_io_oi.Vm.{VmError}
use tiny_io_oi.Drivers.{MockNetwork, MockUart}
use tiny_io_oi.Gateway.{Archive}
use tiny_io_oi.CoreGateway.{FramingDecoder, CoreBridge}
use tiny_io_oi.CoreGateway.Relay.{Message, IsArchived, frames_of, line_of, frames_of-line_of}
use tiny_io_oi.CoreGateway.HostParser.{host_decoder}
use tiny_io_oi.CoreGateway.HostDecoder.{host_decoder-DecoderLaws}
use tiny_io_oi.CoreGateway.Outgoing.{delivery, IsShort, Holds, ticks, ticks-written}
use tiny_io_oi.Gateway.Delivery.{IsJunk}
use tiny_io_oi.Node.Reports.{script_report, std_report}
use tiny_io_oi.Tools.{is_report, hazard_detected, listen}
use tiny_io_oi.Tools.Geopin.{reported, bytes_of, listen-reported}

-- Is one of the messages an exception?
abbrev pub has_exception : List Message → Bool
has_exception [] = false
has_exception (m ∷ ms) = same_opcode m.opcode OpCode.exception || has_exception ms

module _ (archive : Archive) where
  reported-has_exception :
      (capacity : ℕ) (ms : List Message)
      → All (IsArchived archive capacity) ms
      → reported archive (map (λ m. m.serialized) ms) ≡ has_exception ms
  reported-has_exception capacity [] archived = refl
  reported-has_exception capacity (m ∷ ms) archived =
      ap₂ ◌||◌
        (ap is_report archived.0.read
          ∙ ap (λ o. same_opcode o OpCode.exception) (opcode-round_trip.0 m.opcode))
        (reported-has_exception capacity ms archived.1)

  line_of-reported :
      (ms : List Message)
      → All (IsArchived archive (2 ^ 16 - 1)) ms
      → reported archive (frames_of host_decoder (line_of ms) []).1 ≡ has_exception ms
  line_of-reported ms archived =
      let frames =
        frames_of-line_of archive host_decoder (2 ^ 16 - 1) IsJunk ms [] host_decoder-DecoderLaws
          host_decoder-DecoderLaws.fresh-IsIdle archived in
      ap (reported archive) frames.0 ∙ reported-has_exception (2 ^ 16 - 1) ms archived

  -- A gateway, on whose line nothing has been written, relays the messages of its radio, each of at
  -- most 256 bytes and archived in fewer than 2^16, with one tick for each. The tool that reads the
  -- bytes on the line, whatever reads fail in between, finds a report exactly if one of the messages
  -- is an exception.
  pub ticks-listen :
      {D : Type 0} (decoder_ops : FramingDecoder D) (ms : List Message) (fuels : List ℕ)
      (reads : List (Option ℕ)) (g : CoreBridge MockNetwork MockUart D)
      → length fuels ≡ length ms
      → Holds archive decoder_ops (map delivery ms) [] g
      → All IsShort ms
      → All (IsArchived archive (2 ^ 16 - 1)) ms
      → bytes_of archive reads ≡ (ticks archive decoder_ops fuels g).uart.written
      → (listen archive reads []).exception_found ≡ has_exception ms
  ticks-listen decoder_ops ms fuels reads g e holds short archived read =
      listen-reported archive reads []
      ∙ ap (λ bytes. reported archive (frames_of host_decoder bytes []).1)
          (read
            ∙ ticks-written archive decoder_ops (2 ^ 16 - 1) ms fuels [] g e holds short archived)
      ∙ line_of-reported ms archived

-- No report of a node is one of the hazard for the tool, not even that of a MultiBandSpectrumHazard:
-- the byte after the opcode is 0xFF in all of them.
pub hazard_detected-never :
    (e : VmError)
    → (hazard_detected (opcode_byte OpCode.exception ∷ script_report e) ≡ false)
      × (hazard_detected (opcode_byte OpCode.exception ∷ std_report e) ≡ false)
unfolding script_report std_report
hazard_detected-never VmError.out_of_fuel = (refl, refl)
hazard_detected-never (VmError.assertion_failed pin expected actual) = (refl, refl)
hazard_detected-never _ = (refl, refl)
