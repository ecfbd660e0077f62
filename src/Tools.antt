-- ===== src/Tools.antt =====
-- crates/tiny-io-oi-tools/src/bin/: `verify_geopin.rs`, which sends a soldier a bytecode through a
-- gateway and listens for its report, the script of `serialize_script.rs`, and `monitor_logs.rs`. The
-- serial port is a parameter, and printing and sleeping are left out.
pub mod Geopin
pub mod Session
pub mod Alarm
use Prim.Native.String.{String, ◌++◌ as append}
use tiny_io_oi.Prelude.{
  ℕ, ◌+◌, ◌/◌, ◌%◌, ◌^◌, List, [], ◌∷◌, ◌++◌, Option, none, some, Bool, true, false, leb,
  if◌then◌else◌, length, take, drop, ◌&&◌, ◌==◌, get_or,
}
use tiny_io_oi.Protocol.{NodeId, OpCode, opcode_from, same_opcode}
use tiny_io_oi.Vm.{VmStep}
use tiny_io_oi.Gateway.{Archive, has_magic, announced}

-- The script that `serialize_script.rs` writes.
abbrev pub blink_script : List VmStep
blink_script =
    VmStep.set_pwm 0 255
    ∷ VmStep.delay 50
    ∷ VmStep.set_pwm 0 0
    ∷ VmStep.delay 50
    ∷ VmStep.set_pwm 0 255
    ∷ VmStep.delay 50
    ∷ VmStep.set_pwm 0 0
    ∷ VmStep.delay 50
    ∷ VmStep.set_pwm 0 255
    ∷ VmStep.delay 50
    ∷ VmStep.set_pwm 0 0
    ∷ VmStep.delay 50
    ∷ []

-- The port that verify_geopin writes to; the Boolean is whether a call returned `Ok`.
pub record Port (P : Type 0) : Type 0 where
  pub write_all : P → List ℕ → P × Bool
  pub flush : P → P × Bool

-- What a call of `send_frame` ends with: its `Result`, or the panic of its `unwrap`.
pub data Sent (P : Type 0) : Type 0 where
  ok failed : P → Sent P
  panicked : Sent P

abbrev pub everyone : NodeId
everyone = 0xFF ∷ 0xFF ∷ 0xFF ∷ 0xFF ∷ 0xFF ∷ 0xFF ∷ []

-- MultiBandAssert on pin 3.
abbrev pub std_bytecode : List ℕ
std_bytecode = 0x83 ∷ 0x03 ∷ 0x01 ∷ 0x01 ∷ 0x33 ∷ 0x73 ∷ 0x8F ∷ 0x02 ∷ []

module _ {P : Type 0} (port_ops : Port P) (archive : Archive) where
  -- `write_all(..)?; flush()?`.
  abbrev transmit : List ℕ → P → Sent P
  transmit packet port =
      let (port1, written) = port_ops.write_all port packet in
      let (port2, flushed) = port_ops.flush port1 in
      if written then (if flushed then Sent.ok port2 else Sent.failed port2) else Sent.failed port1

  unfoldable pub send_frame : P → NodeId → List ℕ → Sent P
  send_frame port mac_addr payload = elim (archive.to_bytes mac_addr payload) [
    | none ↦ Sent.panicked
    | some serialized ↦
        let len = length serialized % 2 ^ 16 in
        transmit ((0xDE ∷ 0xAD ∷ []) ++ (len / 256 ∷ len % 256 ∷ []) ++ serialized) port
  ]

  -- `send_frame(..)?`.
  abbrev pub and_send : Sent P → (P → Sent P) → Sent P
  and_send (Sent.ok port) next = next port
  and_send (Sent.failed port) next = Sent.failed port
  and_send Sent.panicked next = Sent.panicked

  -- What `main` transmits.
  unfoldable pub transmit_all : P → Sent P
  unfolding send_frame
  transmit_all port =
      and_send (send_frame port everyone (0x04 ∷ []))
        (λ port1. send_frame port1 everyone (0x40 ∷ std_bytecode))

-- The tests on an archived frame: is its payload an exception?
abbrev pub is_report : Option (List ℕ) → Bool
is_report none = false
is_report (some []) = false
is_report (some (b ∷ rest)) = same_opcode (opcode_from b) OpCode.exception

-- The test for the hazard that the tool provokes, on the payload of an exception.
abbrev pub hazard_detected : List ℕ → Bool
hazard_detected payload = leb 2 (length payload) && (get_or payload 1 0 == 0x03)

-- The variables of the listening loop.
pub record Listening : Type 0 where
  pub exception_found : Bool
  pub rx_buf : List ℕ

-- The body of the loop, on the buffer with the new byte in it. A report leaves the loop at once.
abbrev pub examine : Archive → List ℕ → Listening
examine archive buf =
    if leb 4 (length buf)
    then (if has_magic buf
        then (if leb (4 + announced buf) (length buf)
            then (if is_report (archive.check (take (announced buf) (drop 4 buf)))
                then record { exception_found = true; rx_buf = buf }
                else record { exception_found = false; rx_buf = drop (4 + announced buf) buf })
            else record { exception_found = false; rx_buf = buf })
        else record { exception_found = false; rx_buf = drop 1 buf })
    else record { exception_found = false; rx_buf = buf }

-- The loop, over what the reads before the deadline give: a byte, or an error.
unfoldable pub listen : Archive → List (Option ℕ) → List ℕ → Listening
listen archive [] buf = record { exception_found = false; rx_buf = buf }
listen archive (none ∷ reads) buf = listen archive reads buf
listen archive (some b ∷ reads) buf =
    let r = examine archive (buf ++ b ∷ []) in
    elim r.exception_found [ true ↦ r | false ↦ listen archive reads r.rx_buf ]

-- The loop of `monitor_logs.rs`, over what the reads before the deadline give: what it prints.
unfoldable pub monitor : (List ℕ → String) → List (Option (List ℕ)) → String
monitor from_utf8_lossy [] = ""
monitor from_utf8_lossy (none ∷ reads) = monitor from_utf8_lossy reads
monitor from_utf8_lossy (some [] ∷ reads) = monitor from_utf8_lossy reads
monitor from_utf8_lossy (some (b ∷ bytes) ∷ reads) =
    append (from_utf8_lossy (b ∷ bytes)) (monitor from_utf8_lossy reads)
