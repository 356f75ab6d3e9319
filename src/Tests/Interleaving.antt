-- ===== src/Tests/Interleaving.antt =====
-- Two threads inside `force_push` and `pop` of one queue of src/array_queue.rs.
use ref_count.Common.{ℕ, suc, update, ◌≡◌, ◌≢◌, refl, false, List, [], ◌∷◌, arith}
use ref_count.Program.{ret, act, undefined}
use ref_count.Tests.Places.{shape_of_two, unused}
use ref_count.Queue.Memory.{
  Access, Response, apply, load_head, load_tail, cas_head, cas_tail, load_stamp, store_stamp,
  write_value, take_value, store_tail, fence,
}
use ref_count.Queue.Ops.{
  Method, new, push, force_push, replace_oldest, push_or_else, push_loop, pop, pop_loop, ok,
}
use ref_count.Queue.Contents.{Holds}
use ref_count.Queue.Ops.{is_full}
use ref_count.Queue.Stamp.{one_lap, index_of, next_stamp, next_power_of_two, doubled_to, lap_of}
use ref_count.Linear.{
  Call, Reply, serve, Event, called, returned, push_of, force_push_of, pop_of, from_push, idle,
  running, System, Run, start, later, begin, access, finish, Atomic, AtomicRun,
}
use ref_count.Linear.Linearizable.{linearizable}
use ref_count.Linear.Watch.{Point, Observed, During, here, further, is_full_of, look, right}
use ref_count.Linear.Observers.{observers_within}
use ref_count.Linear.Race.{no_data_race, no_undefined}

abbrev events : List (Event ℕ)
events =
    called 1 pop_of
    ∷ called 0 (force_push_of 9)
    ∷ returned 0 (from_push (ok tt))
    ∷ called 0 (push_of 8)
    ∷ returned 0 (from_push (ok tt))
    ∷ called 0 (push_of 7)
    ∷ []

module _ {n : ℕ} {es : List (Event ℕ)} {s : System ℕ} (run : Run 2 n es s) (i : ℕ) where
  begins :
      (call : Call ℕ)
      → s.threads i ≡ idle
      → Run 2
          (suc n)
          (called i call ∷ es)
          (record s { threads = update s.threads i (running (serve 2 1 call)) })
  begins call e = later run (begin i 1 call e)

  accesses :
      (e : Access ℕ) {k : Response e → Method ℕ (Reply ℕ)}
      → s.threads i ≡ running (act e k)
      → Run 2 (suc n) es (record {
        mem = (apply e false s.mem).1;
        threads = update s.threads i (running (k (apply e false s.mem).0));
      })
  accesses e h = later run (access i e false h)

  finishes :
      {reply : Reply ℕ}
      → s.threads i ≡ running (ret reply)
      → Run 2 (suc n) (returned i reply ∷ es) (record s { threads = update s.threads i idle })
  finishes h = later run (finish i h)

-- Thread 0 has pushed 7 and 8, and in `force_push` has moved the head past 7, while the tail is as
-- before; thread 1 has called `pop`.
lagging : (s : System ℕ) × Run 2 20 events s
unfolding new push force_push push_or_else push_loop replace_oldest pop pop_loop one_lap index_of
    next_stamp lap_of next_power_of_two doubled_to
lagging =
    let s0 : Run 2 0 [] (record { mem = unused; threads = λ i. idle }) = start refl in
    let s1 = begins s0 0 (push_of 7) refl in
    let s2 = accesses s1 0 load_tail refl in
    let s3 = accesses s2 0 (load_stamp 0) refl in
    let s4 = accesses s3 0 (cas_tail 0 1) refl in
    let s5 = accesses s4 0 (write_value 0 7) refl in
    let s6 = accesses s5 0 (store_stamp 0 1) refl in
    let s7 = finishes s6 0 refl in
    let s8 = begins s7 0 (push_of 8) refl in
    let s9 = accesses s8 0 load_tail refl in
    let s10 = accesses s9 0 (load_stamp 1) refl in
    let s11 = accesses s10 0 (cas_tail 1 4) refl in
    let s12 = accesses s11 0 (write_value 1 8) refl in
    let s13 = accesses s12 0 (store_stamp 1 2) refl in
    let s14 = finishes s13 0 refl in
    let s15 = begins s14 0 (force_push_of 9) refl in
    let s16 = begins s15 1 pop_of refl in
    let s17 = accesses s16 0 load_tail refl in
    let s18 = accesses s17 0 (load_stamp 0) refl in
    let s19 = accesses s18 0 fence refl in let s20 = accesses s19 0 (cas_head 0 1) refl in (_, s20)

-- Thread 0 has taken 7 out and is about to write 9; thread 1 is about to take 8 out of the second slot.
both_inside : (s : System ℕ) × Run 2 25 events s
unfolding lagging new push force_push push_or_else push_loop replace_oldest pop pop_loop one_lap
    index_of next_stamp lap_of next_power_of_two doubled_to
both_inside =
    let s20 : Run 2 20 events lagging.0 = lagging.1 in
    let s21 = accesses s20 1 load_head refl in
    let s22 = accesses s21 0 (store_tail 5) refl in
    let s23 = accesses s22 0 (take_value 0) refl in
    let s24 = accesses s23 1 (load_stamp 1) refl in
    let s25 = accesses s24 1 (cas_head 1 4) refl in (_, s25)

linearizable_example :
    (a : Atomic ℕ) × AtomicRun 2 events a
    × (((i : ℕ) → both_inside.0.threads i ≡ idle) → (h : ℕ) × Holds 2 2 h a.items both_inside.0.mem)
linearizable_example = linearizable shape_of_two (omega arith) (omega arith) both_inside.1

no_data_race_example : ◌≢◌ {A = ℕ} 0 1
unfolding both_inside
no_data_race_example =
    no_data_race shape_of_two (omega arith) (omega arith) both_inside.1 0 1 0 1 (write_value 0 9)
      (take_value 1) (omega arith) refl refl refl refl

no_undefined_example : both_inside.0.threads 1 ≢ running undefined
no_undefined_example = no_undefined shape_of_two (omega arith) (omega arith) both_inside.1 1

abbrev lagging_point : Point ℕ
lagging_point = record { steps = 20; events = events; system = lagging.0 }

-- `is_full` loads the tail, then thread 1 loads the head, then `is_full` does, and says that the queue
-- is not full.
looked : (q : Point ℕ) × Observed 2 lagging_point (look 2 is_full_of) false q
unfolding lagging is_full pop pop_loop push force_push push_or_else push_loop replace_oldest new
    one_lap next_power_of_two doubled_to index_of next_stamp lap_of
looked = (_, (lagging_point, here, (_, further here (access 1 load_head false refl), (refl, here))))

observers_within_example :
    (n : ℕ) × During 2 lagging_point looked.0 n × (false ≡ right 2 is_full_of n)
unfolding looked lagging
observers_within_example =
    observers_within shape_of_two (omega arith) (omega arith) lagging.1 is_full_of false looked.1
