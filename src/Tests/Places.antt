-- ===== src/Tests/Places.antt =====
-- Queues of src/array_queue.rs with two places, for the runs on concrete inputs.
use ref_count.Common.{refl, none, arith}
use ref_count.Queue.Memory.{Memory}
use ref_count.Queue.Shape.{Shape}
use ref_count.Queue.Stamp.{one_lap}

pub shape_of_two : Shape 2 2
unfolding one_lap
shape_of_two = record {
  not_empty = omega arith;
  fits = omega arith;
  narrow = omega arith;
  lap_eq = refl;
}

-- A new queue.
abbrev pub unused : {T : Type 0} → Memory T
unused = record { head = 0; tail = 0; stamp = λ i. i; value = λ i. none }
