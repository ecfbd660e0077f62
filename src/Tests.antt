-- ===== src/Tests.antt =====
-- Concrete inputs for the theorems of the other modules, and runs of the definitions on them.
pub mod Boards
pub mod Machines
pub mod Nodes
pub mod Lines
pub mod Routers
pub mod Threads
pub mod Files
pub mod Hosts
pub mod Soldiers
pub mod Links
pub mod Verdicts
pub mod Missions
pub mod Pages
pub mod Peaks
pub mod Replays
