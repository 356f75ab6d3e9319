-- ===== src/RefCount.antt =====
-- src/lib.rs, src/futures.rs, src/waiter.rs and the macros of src/macros.rs: the reference counter.
pub mod Memory
pub mod Ops
pub mod Futures
