-- ===== src/Queue.antt =====
-- src/array_queue.rs: the bounded queue in which waiting futures stand.
pub mod Memory
pub mod Stamp
pub mod Ops
pub mod Laps
pub mod Shape
pub mod Position
pub mod Distinct
pub mod Contents
pub mod Push
pub mod ForcePush
pub mod Pop
pub mod Observers
pub mod Drain
pub mod Loom
pub mod Refinement
