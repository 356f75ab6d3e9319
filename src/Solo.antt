-- ===== src/Solo.antt =====
-- What the functions of src/lib.rs and src/futures.rs do when one thread runs them with no other
-- thread in between.
pub mod Queue
pub mod Wake
pub mod Attempts
pub mod Release
pub mod Blocking
pub mod BlockingExclusive
pub mod Registration
pub mod GetRef
pub mod Equal
pub mod Turns
pub mod TakeDrop
pub mod PollBlocked
pub mod PollExclusive
pub mod GetExclusive
pub mod Served
