-- ===== src/Lib.antt =====
-- tiny_io_oi: the soldier node of a swarm of microcontrollers, its bytecode machines and the
-- verifier of their programs.
--
-- A leader sends a soldier messages over the radio. `TinyNode` (crates/tiny-io-oi/src/node.rs) keeps
-- the scores of possible leaders, a safe mode, a cache of its neighbours' assertions and a write-ahead
-- log, and in each `tick` handles one message. A script goes to `MicroVm::run`, standard bytecode to
-- `MicroVm::run_std` (crates/tiny-io-oi/src/vm.rs), which calls `StdExecutor::execute_step`
-- (crates/tiny-io-oi/src/std_impl.rs) for each instruction. `StaticVerifier`
-- (crates/tiny-io-oi/src/verifier/mod.rs) judges both kinds of program before they are sent, and
-- `GatewayBridge` (crates/tiny-io-oi-host/src/gateway.rs) carries messages between a serial line and
-- the radio.
--
-- The files:
--   Prelude   tests, lists and integers over the native numbers, machine words.
--   Protocol  crates/tiny-io-oi/src/lib.rs: `OpCode`, `to_core_id`, `from_core_id`.
--   Traits    the hardware traits of lib.rs and hardware.rs, as records of operations over a state.
--   Drivers   crates/tiny-io-oi/src/drivers.rs: the mock drivers.
--   Vm        `MicroVm::run`: `round` is one pass of its loop, `exec_step` the match in it.
--   Bytecode  the eight-byte instructions, as `run_std` and the verifier cut them.
--   Floats    f32 and libm, as a parameter. Spectrum: the FFT and the band energies over it.
--   Ranging, Gossip, Clock   the median filter, the count of neighbours, the waiting loops.
--   Board     what the standard library runs on. Opcodes: a function for each opcode; Opcodes.Motion says
--             what it does to the motor. Std: `execute_step` and `run_std`.
--   Verifier  `verify_vm_script` and `verify_std_bytecode`; ReportText has the lines of their reports.
--   Scores, Cache, Log   the tables of a node, and `recover_from_wal`.
--   Node      `TinyNode`; Node.Handlers the branches of its `tick`, Node.Tick the guards and the tick.
--   Gateway   the host's `GatewayBridge`. CoreGateway: crates/tiny-io-oi/src/gateway.rs, the bridge over
--             a frame decoder. Ptp: crates/tiny-io-oi/src/ptp/mod.rs.
--   Router    crates/tiny-io-oi/src/hardware.rs: `HardwareRouter`.
--   Arena     crates/tiny-io-oi/src/unsafe_core.rs: `alloc`, and the counts of `TinyArc`; Arena.Threads
--             the atomic steps of threads that share an arena.
--   Flash     crates/tiny-io-oi/src/memory.rs: `FlashFileSystem`.
--   Ffi       crates/tiny-io-oi-host/src/ffi.rs: the functions exported to C; the builders that C
--             points to are a heap (Ffi.Heap).
--   MacroNode crates/tiny-io-oi-macros/src/lib.rs: the bindings that `#[io_oi_node]` collects, and the
--             `run_vm_script` that it expands to.
--   Firmware  firmware/esp32/src/main.rs: the drivers of the ESP32 and the loop of a soldier;
--             Firmware.Builds has the loops of the gateway and of the roadshow.
--   Tools     crates/tiny-io-oi-tools/src/bin: the frames and the listening loop of verify_geopin.rs, and
--             the script of serialize_script.rs; Tools.Alarm joins a gateway's ticks to the loop.
--   Roadshow  smart_geopin_roadshow/smart_geopin_ui/src/main.rs: the answers of the web server.
--   Tests     concrete inputs for the theorems. Tests.Replays has the tests of
--             crates/tiny-io-oi/src/lib.rs, verifier/mod.rs and ptp/mod.rs, and examples/soldier_demo.rs.
--
-- State is passed explicitly. A method on `&mut self` returns the new value; an error is an `Outcome`
-- beside it. Machine integers are natural numbers with the wrap-around of the source's types written
-- out, or `Prelude.Int.signed` and `bits` for signed ones. The build is the default one, with the
-- features `std`, `ptp` and `verifier`, but for the firmware, which is built without `ptp`
-- (`Board.ptp`) and so has no clock (`Firmware.no_clock`).
--
-- Bounds. The clock is a stream of readings. The two loops that wait for it end after ten seconds
-- only if the clock goes on, which the code cannot promise; so they take at most `patience` readings
-- and otherwise report `waiting`. `replay` takes as much fuel as the log has bytes, and each round
-- reads at least four of them. `read_uart` takes a number of bytes, since a line may never end.
--
-- The functions of Arena are whole operations. In Arena.Threads a call of `alloc` takes one step for
-- each compare-exchange and one for its write, and the steps of all threads come in any order, which
-- is what `SeqCst` gives; the bound on handles keeps the u16 counters from wrapping.
--
-- Parameters: the script viewer, the frame archive and the frame decoder of io_oi_core
-- (`VmScriptViewer`, `Archive`, `FramingDecoder`), the log and its commands of cdDB (`Wal`), rkyv's
-- coding of scripts, rustfft, floats, esp-now and the serial lines of esp-hal, and the board's drivers.
-- What is relied on of them stands in `Decodes`, `DecoderLaws`, `WalLaws`, `ArchiveLaws` and
-- `IsStrict`. The web server's pages and its connection to redis are parameters too.
--
-- Not modelled: printing, the freeing of bytes that were handed to C, the host's copy of the mock
-- drivers (the same text as the core's), the setup of esp-wifi, the accepting of
-- connections by the web server, and the Bun client.
pub mod Prelude
pub mod Protocol
pub mod Traits
pub mod Drivers
pub mod Vm
pub mod Bytecode
pub mod Floats
pub mod Spectrum
pub mod Ranging
pub mod Gossip
pub mod Clock
pub mod Board
pub mod Opcodes
pub mod Std
pub mod ReportText
pub mod Verifier
pub mod Scores
pub mod Cache
pub mod Log
pub mod Node
pub mod Gateway
pub mod Ptp
pub mod Arena
pub mod Router
pub mod CoreGateway
pub mod Flash
pub mod Ffi
pub mod MacroNode
pub mod Firmware
pub mod Tools
pub mod Roadshow
pub mod Tests
