-- ===== src/Solo/Served.antt =====
-- A task that waits for a reference with `poll` of `FutureRef`, src/futures.rs, until `Drop` of
-- `ExclusiveRef`, src/lib.rs, wakes it.
use ref_count.Queue.Shape.{Shape}
