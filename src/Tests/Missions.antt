-- ===== src/Tests/Missions.antt =====
-- A script from its builder to the LED of a soldier, on concrete input.
use tiny_io_oi.Prelude.{ℕ, ◌^◌, ◌-◌, List, [], ◌∷◌, none, some, ◌≡◌, refl, arith}
use tiny_io_oi.Protocol.{OpCode}
use tiny_io_oi.Drivers.{mock_uart}
use tiny_io_oi.Node.{Platform, Node}
use tiny_io_oi.Scores.{decay, update, leader}
use tiny_io_oi.Node.Tick.{prepare, check_heartbeat, double_signs, tick}
use tiny_io_oi.Node.Missions.{Accepts, Ran, listening}
use tiny_io_oi.Gateway.Delivery.{IsJunk}
use tiny_io_oi.CoreGateway.{read_uart}
use tiny_io_oi.CoreGateway.Relay.{Message, line_of, waiting}
use tiny_io_oi.CoreGateway.HostParser.{host_decoder}
use tiny_io_oi.CoreGateway.HostDecoder.{host_decoder-DecoderLaws}
use tiny_io_oi.Firmware.{no_clock, boot, broadcast_mac, esp_network, esp_platform}
use tiny_io_oi.Firmware.Mission.{read_uart-Ran}
use tiny_io_oi.Tests.Boards.{whole_numbers, byte_log, two_steps}
use tiny_io_oi.Tests.Hosts.{
  to_bytes, check_script, script_viewer, script_laws, two_builders, two_builders-Keeps,
}
use tiny_io_oi.Tests.Links.{bare}
use tiny_io_oi.Tests.Soldiers.{air, boss}

abbrev script : List ℕ
script = 1 ∷ 2 ∷ 40 ∷ 2 ∷ 7 ∷ 0 ∷ []

abbrev esp : Platform
esp = esp_platform air whole_numbers byte_log script_viewer 4 (λ bytes. none)

abbrev carrier_of_script : Message
carrier_of_script = record {
  sender = 1 ∷ [];
  opcode = OpCode.vm_script_dispatch;
  payload = script;
  serialized = 0x40 ∷ script;
}

-- A booted soldier whose radio holds the message.
abbrev soldier : Node esp
soldier =
    (boot air whole_numbers byte_log script_viewer 4 (λ bytes. none)
      ((boss, 0x40 ∷ script) ∷ [])).node

abbrev awake : Node esp
awake = listening esp no_clock [] soldier

soldier-receives : air.receive (prepare esp 0 soldier).network ≡ ([], some (boss, 0x40 ∷ script))
unfolding prepare check_heartbeat decay leader
soldier-receives = refl

soldier-Accepts : Accepts esp boss script awake
unfolding prepare check_heartbeat double_signs decay update leader
soldier-Accepts = record { trusted = refl; single = refl; ready = refl }

read_uart-Ran_example :
    ((read_uart
        (esp_network air)
        mock_uart
        bare
        host_decoder
        99
        (waiting (line_of (carrier_of_script ∷ [])) [] [] [])).network
      ≡ (air.send [] broadcast_mac (0x40 ∷ script)).0)
    × Ran esp two_steps awake (tick esp no_clock soldier)
read_uart-Ran_example =
    read_uart-Ran air whole_numbers byte_log script_viewer 4 (λ bytes. none) to_bytes check_script
      script_laws bare host_decoder (2 ^ 16 - 1) IsJunk host_decoder-DecoderLaws (none ∷ [])
      two_builders (1 ∷ []) script (0x40 ∷ script) 99 [] [] [] boss soldier two_builders-Keeps refl
      (record { noise = tt; short = omega arith })
      (record { written = refl; read = refl; short = omega arith }) (omega arith) (omega arith)
      soldier-receives soldier-Accepts
