-- ===== src/Tests/Borrows.antt =====
-- The borrows of the configuration `loom` of src/array_queue.rs on a concrete queue.
use ref_count.Common.{ℕ, ◌≡◌, true, []}
use ref_count.Program.{run}
use ref_count.Queue.Contents.{pushed}
use ref_count.Queue.Loom.{drop_queue_loom, next_loom, loom_equal}
use ref_count.Queue.Memory.{Memory, apply}
use ref_count.Queue.Ops.{drop_queue, next}
use ref_count.Tests.Places.{unused}

abbrev one_value : Memory ℕ
one_value = pushed 2 2 0 7 unused

loom_equal_example :
    (run apply (drop_queue_loom 2 true) (record { mem = one_value; misses = [] })
      ≡ run apply (drop_queue 2 true) (record { mem = one_value; misses = [] }))
    × (run apply (next_loom 2) (record { mem = one_value; misses = [] })
        ≡ run apply (next 2) (record { mem = one_value; misses = [] }))
loom_equal_example = loom_equal 2 true one_value
