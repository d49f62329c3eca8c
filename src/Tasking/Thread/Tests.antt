-- ===== src/Tasking/Thread/Tests.antt =====
-- The theorems of timeouts and of the end of a thread, at a concrete kernel.
use cyan_oskernel.Prelude.{ℕ, ◌≡◌, ◌||◌, refl, none, some, [], ◌∷◌, arith, ◌==◌, if◌then◌else◌}
use cyan_oskernel.Tasking.Thread
use cyan_oskernel.Tasking.Thread.{
  blocked_queue_timed, blocked_sleep, ListName, sleeping_threads, blocked_timed_threads, Kernel,
  Entry, blocked, wake_up_sleepers, terminate,
}
use cyan_oskernel.Tasking.Thread.Lists.{count}
use cyan_oskernel.Tasking.Thread.Inv.{Inv, blocked_count, entry_count}
use cyan_oskernel.Tasking.Thread.Rouse.{Entered}
use cyan_oskernel.Tasking.Thread.Sleepers.{after_deadline, wake_up_sleepers-Inv}
use cyan_oskernel.Tasking.Thread.Terminate.{Gone, terminate-Gone}

abbrev late : Thread.Thread
late = record {
  state = blocked_queue_timed;
  owner = some blocked_timed_threads;
  blocker = some 7;
  sleep_ticks = 9;
}

abbrev sleepy : Thread.Thread
sleepy = record {
  state = blocked_sleep;
  owner = some sleeping_threads;
  blocker = none;
  sleep_ticks = 50;
}

-- Thread 2 waits on queue 7 until tick 9, thread 3 sleeps until tick 50, and it is tick 10.
abbrev kernel : Kernel
kernel = record {
  thread = λ t. if t == 2 then some late else if t == 3 then some sleepy else none;
  list = λ l. elim l [ sleeping_threads ↦ 3 ∷ [] | blocked_timed_threads ↦ 2 ∷ [] | _ ↦ [] ];
  ticks = 10;
  entries = λ q. if q == 7 then record { tid = 2; state = blocked } ∷ [] else [];
  tid_bitmap = λ t. (t == 2) || (t == 3);
}

kernel-Inv : Inv kernel
unfolding count blocked_count entry_count
kernel-Inv = record {
  members = λ t l. ground arith;
  homes = λ t. ground arith;
  single = λ t q. ground arith;
  waiting = λ t q. ground arith;
}

kernel-Entered : Entered kernel
unfolding entry_count
kernel-Entered = record {
  entries_there = λ t q. ground arith;
  named = λ t. ground arith;
  present = λ q t gone. ground arith;
}

wake_up_sleepers-Inv_example :
    (k' : Kernel) × (wake_up_sleepers kernel ≡ some k')
    × Inv k'
    × Entered k'
    × ((t : ℕ) → k'.thread t ≡ after_deadline 10 (kernel.thread t))
wake_up_sleepers-Inv_example = wake_up_sleepers-Inv kernel kernel-Inv kernel-Entered

terminate-Gone_example : (k' : Kernel) × (terminate 2 kernel ≡ some k') × Gone 2 kernel k'
unfolding entry_count
terminate-Gone_example =
    terminate-Gone kernel kernel-Inv 2 late refl refl (7, refl, omega arith, λ u gone. ground arith)
