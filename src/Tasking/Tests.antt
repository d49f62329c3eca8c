-- ===== src/Tasking/Tests.antt =====
-- The theorems of the threads, wait queues and semaphores, at a concrete kernel.
use cyan_oskernel.Prelude.{◌≡◌, ◌||◌, refl, none, some, [], ◌∷◌, arith, ◌==◌, if◌then◌else◌}
use cyan_oskernel.Tasking.Thread
use cyan_oskernel.Tasking.Thread.{
  ThreadState, ready, blocked_queue, ListName, ready_threads, sleeping_threads, blocked_threads,
  blocked_timed_threads, Kernel, Entry, WaitState, blocked, put_entries, erase, push_back, remove,
  handle_thread_terminated, without, has_entry,
}
use cyan_oskernel.Tasking.Thread.Lists.{count}
use cyan_oskernel.Tasking.Thread.Inv.{Inv, blocked_count, entry_count}
use cyan_oskernel.Tasking.Thread.Moves.{waiting_for}
use cyan_oskernel.Tasking.WaitQueue.{wake_up_all}
use cyan_oskernel.Tasking.WaitQueue.WakeAll.{AllWoken, wake_up_all-AllWoken}
use cyan_oskernel.Tasking.WaitQueue.Wait.{new_entry}
use cyan_oskernel.Prelude.{pos, negsuc}
use cyan_oskernel.Tasking.Semaphore.{Semaphore, acquire, release}
use cyan_oskernel.Tasking.Semaphore.Balance.{Balanced, pending, acquire-Balanced, release-Balanced}

abbrev running : Thread.Thread
running = record { state = ready; owner = some ready_threads; blocker = none; sleep_ticks = 0 }

abbrev waiting : Thread.Thread
waiting = record {
  state = blocked_queue;
  owner = some blocked_threads;
  blocker = some 7;
  sleep_ticks = 0;
}

-- Thread 1 is ready, and thread 2 waits on queue 7.
abbrev kernel : Kernel
kernel = record {
  thread = λ t. if t == 1 then some running else if t == 2 then some waiting else none;
  list = λ l. elim l [ ready_threads ↦ 1 ∷ [] | blocked_threads ↦ 2 ∷ [] | _ ↦ [] ];
  ticks = 10;
  entries = λ q. if q == 7 then new_entry 2 ∷ [] else [];
  tid_bitmap = λ t. (t == 1) || (t == 2);
}

kernel-Inv : Inv kernel
unfolding count blocked_count entry_count
kernel-Inv = record {
  members = λ t l. ground arith;
  homes = λ t. ground arith;
  single = λ t q. ground arith;
  waiting = λ t q. ground arith;
}

wake_up_all-AllWoken_example :
    (k' : Kernel) × (wake_up_all 7 kernel ≡ some k') × AllWoken 7 kernel k'
wake_up_all-AllWoken_example = wake_up_all-AllWoken 7 kernel kernel-Inv

-- Threads 1 and 2 are ready.
abbrev two_ready : Kernel
two_ready = record kernel {
  thread = λ t. if t == 1 then some running else if t == 2 then some running else none;
  list = λ l. elim l [ ready_threads ↦ 1 ∷ 2 ∷ [] | _ ↦ [] ];
  entries = λ q. [];
}

abbrev taken : Semaphore
taken = record { count = negsuc 0; wait_queue = 7 }

acquire-Balanced_example :
    (k' : Kernel) × (acquire 1 taken kernel ≡ some (record taken { count = negsuc 1 }, k'))
    × Inv k'
    × Balanced (record taken { count = negsuc 1 }) k'
    × (k'.thread 1 ≡ some (waiting_for 7 0 10 running))
unfolding entry_count pending
acquire-Balanced_example = acquire-Balanced taken kernel 1 running kernel-Inv refl refl refl refl

release-Balanced_example :
    (k' : Kernel) × (release taken kernel ≡ some (record taken { count = pos 0 }, k'))
    × Inv k'
    × Balanced (record taken { count = pos 0 }) k'
unfolding pending
release-Balanced_example = release-Balanced taken kernel kernel-Inv refl refl
