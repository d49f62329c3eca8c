-- ===== src/Tasking/Thread/Moves.antt =====
-- Blocking, sleeping and waking a thread keep the invariant, and never fail an ASSERT of the lists.
use cyan_oskernel.Prelude.{
  ℕ, zero, suc, ◌+◌, ◌%◌, ◌^◌, ◌≤◌, ◌≡◌, refl, ap, subst, ◌∙◌, Bool, true, false, none, some, arith,
  ◌==◌, ==_refl,
}
use cyan_oskernel.Tasking.Thread.{
  ThreadState, ready, blocked_sleep, blocked_queue, blocked_queue_timed, suspended, ListName,
  ready_threads, sleeping_threads, blocked_threads, blocked_timed_threads, same_list, Thread,
  Kernel, put_thread, push_back, wake_up, block, sleep,
}
use cyan_oskernel.Tasking.Thread.Inv.{
  home, IsHome, Inv, blocked_count, waits, removed, pushed, remove-eq, push_back-eq, awake, Moved,
  same_list→eq, wake_up-Moved, Moved-Inv,
}

-- A thread as `block` leaves it.
abbrev pub waiting_for : ℕ → ℕ → ℕ → Thread → Thread
waiting_for q zero now th = record th {
  state = blocked_queue;
  owner = some blocked_threads;
  blocker = some q;
}
waiting_for q (suc ms) now th = record th {
  state = blocked_queue_timed;
  owner = some blocked_timed_threads;
  blocker = some q;
  sleep_ticks = (now + suc ms) % 2 ^ 32;
}

-- A thread as `sleep` leaves it.
abbrev pub asleep : ℕ → ℕ → Thread → Thread
asleep ms now th = record th {
  state = blocked_sleep;
  owner = some sleeping_threads;
  sleep_ticks = (now + ms) % 2 ^ 32;
}

abbrev pub blocked_list : ℕ → ListName
blocked_list zero = blocked_threads
blocked_list (suc ms) = blocked_timed_threads

module _ (t : ℕ) (th : Thread) (k : Kernel) (here : k.thread t ≡ some th)
    (own : th.owner ≡ some ready_threads) where
  abbrev off : Thread
  off = record th { owner = none }

  abbrev off_list : Kernel
  off_list = removed ready_threads t th k

  block_untimed-Moved :
      (q : ℕ)
      → (k' : Kernel) × (block t q 0 k ≡ some k')
        × Moved t (waiting_for q 0 k.ticks th) ready_threads blocked_threads k k'
  unfolding block
  block_untimed-Moved q = (
    put_thread t (some (waiting_for q 0 k.ticks th)) (
        pushed blocked_threads t (record off { state = blocked_queue })
          (put_thread t (some (record off { state = blocked_queue })) off_list)),
    rw (remove-eq t th k here ready_threads own) (
        rw (==_refl t) (
          rw
            (push_back-eq t (record off { state = blocked_queue })
              (put_thread t (some (record off { state = blocked_queue })) off_list) (rw (==_refl t))
              blocked_threads refl)
            (rw (==_refl t) refl))),
    record {
      threads = λ u. ground arith;
      lists = λ l. ground (arith, same_list→eq blocked_threads l, same_list→eq ready_threads l);
      entries_kept = refl;
      ticks_kept = refl;
    },
  )

  abbrev timed : ℕ → Thread
  timed ms = record off { state = blocked_queue_timed; sleep_ticks = (k.ticks + ms) % 2 ^ 32 }

  abbrev timed_kernel : ℕ → Kernel
  timed_kernel ms =
      put_thread t (some (timed ms))
        (put_thread t (some (record off { sleep_ticks = (k.ticks + ms) % 2 ^ 32 })) off_list)

  block_timed-Moved :
      (q ms : ℕ)
      → (k' : Kernel) × (block t q (suc ms) k ≡ some k')
        × Moved t (waiting_for q (suc ms) k.ticks th) ready_threads blocked_timed_threads k k'
  unfolding block
  block_timed-Moved q ms = (
    put_thread t
        (some (record (timed (suc ms)) { owner = some blocked_timed_threads; blocker = some q }))
        (pushed blocked_timed_threads t (timed (suc ms)) (timed_kernel (suc ms))),
    rw (remove-eq t th k here ready_threads own) (
        rw positive (
          rw (==_refl t) (
            rw (==_refl t) (
              rw
                (push_back-eq t (timed (suc ms)) (timed_kernel (suc ms)) (rw (==_refl t))
                  blocked_timed_threads refl)
                (rw (==_refl t) refl))))),
    record {
      threads = λ u. ground arith;
      lists =
          λ l. ground (arith, same_list→eq blocked_timed_threads l, same_list→eq ready_threads l);
      entries_kept = refl;
      ticks_kept = refl;
    },
  )
    where
      positive : (suc ms == 0) ≡ false
      positive = ground arith

  abbrev sleepy : ℕ → Thread
  sleepy ms = record off { state = blocked_sleep; sleep_ticks = (k.ticks + ms) % 2 ^ 32 }

  abbrev sleepy_kernel : ℕ → Kernel
  sleepy_kernel ms =
      put_thread t (some (sleepy ms))
        (put_thread t (some (record off { sleep_ticks = (k.ticks + ms) % 2 ^ 32 })) off_list)

  sleep-Moved :
      (ms : ℕ)
      → (k' : Kernel) × (sleep t ms k ≡ some k')
        × Moved t (asleep ms k.ticks th) ready_threads sleeping_threads k k'
  unfolding sleep
  sleep-Moved ms = (
    pushed sleeping_threads t (sleepy ms) (sleepy_kernel ms),
    rw (remove-eq t th k here ready_threads own) (
        rw (==_refl t) (
          rw (==_refl t) (
            push_back-eq t (sleepy ms) (sleepy_kernel ms) (rw (==_refl t)) sleeping_threads refl))),
    record {
      threads = λ u. ground arith;
      lists = λ l. ground (arith, same_list→eq sleeping_threads l, same_list→eq ready_threads l);
      entries_kept = refl;
      ticks_kept = refl;
    },
  )

module _ (k : Kernel) (i : Inv k) (t : ℕ) (th : Thread) (here : k.thread t ≡ some th) where
  pub owner_home : th.owner ≡ home th.state
  owner_home = subst IsHome here (i.homes t)

  pub entries_fit : (q : ℕ) → blocked_count t (k.entries q) ≤ waits (some th) q
  entries_fit q = subst (λ o. blocked_count t (k.entries q) ≤ waits o q) here (i.waiting t q)

  module _ (running : th.state ≡ ready) where
    on_ready : th.owner ≡ some ready_threads
    on_ready = owner_home ∙ ap home running

    none_wait : (q : ℕ) → blocked_count t (k.entries q) ≡ 0
    none_wait q = ground (arith, entries_fit q)

    -- Under the invariant, a ready thread can be blocked on a wait queue: it moves to the list of its new state, and the
    -- invariant holds again.
    pub block-Inv :
        (q ms_timeout : ℕ)
        → (k' : Kernel) × (block t q ms_timeout k ≡ some k')
          × Inv k'
          × Moved t
              (waiting_for q ms_timeout k.ticks th)
              ready_threads
              (blocked_list ms_timeout)
              k
              k'
    block-Inv q zero =
        let (k', ran, m) = block_untimed-Moved t th k here on_ready q in
        (
          k',
          ran,
          Moved-Inv t th (waiting_for q 0 k.ticks th) ready_threads blocked_threads k k' here
              on_ready refl refl refl i m (λ q'. omega (arith, none_wait q')),
          m,
        )
    block-Inv q (suc ms) =
        let (k', ran, m) = block_timed-Moved t th k here on_ready q ms in
        (
          k',
          ran,
          Moved-Inv t th (waiting_for q (suc ms) k.ticks th) ready_threads blocked_timed_threads k
              k' here on_ready refl refl refl i m (λ q'. omega (arith, none_wait q')),
          m,
        )

    -- Under the invariant, a ready thread can go to sleep: it moves to the list of sleeping threads, and
    -- the invariant holds again.
    pub sleep-Inv :
        (ms : ℕ)
        → (k' : Kernel) × (sleep t ms k ≡ some k')
          × Inv k'
          × Moved t (asleep ms k.ticks th) ready_threads sleeping_threads k k'
    sleep-Inv ms =
        let (k', ran, m) = sleep-Moved t th k here on_ready ms in
        (
          k',
          ran,
          Moved-Inv t th (asleep ms k.ticks th) ready_threads sleeping_threads k k' here on_ready
              refl refl refl i m (λ q'. omega (arith, none_wait q')),
          m,
        )

abbrev pub is_blocked : ThreadState → Bool
is_blocked blocked_sleep = true
is_blocked blocked_queue = true
is_blocked blocked_queue_timed = true
is_blocked _ = false

home_of_blocked :
    (s : ThreadState)
    → is_blocked s ≡ true
    → (l : ListName) × (home s ≡ some l) × (same_list l ready_threads ≡ false)
home_of_blocked ready b = cc
home_of_blocked blocked_sleep b = (sleeping_threads, refl, refl)
home_of_blocked blocked_queue b = (blocked_threads, refl, refl)
home_of_blocked blocked_queue_timed b = (blocked_timed_threads, refl, refl)
home_of_blocked suspended b = cc

-- Under the invariant, a blocked thread that no entry waits for can be woken up: it becomes ready, at the end of the
-- ready list, and the invariant holds again.
pub wake_up-Inv :
    (k : Kernel) (i : Inv k) (t : ℕ) (th : Thread)
    → k.thread t ≡ some th
    → is_blocked th.state ≡ true
    → ((q : ℕ) → blocked_count t (k.entries q) ≡ 0)
    → (from : ListName) × (k' : Kernel) × (wake_up t k ≡ some k')
      × Inv k'
      × Moved t (awake th) from ready_threads k k'
wake_up-Inv k i t th here b unwanted =
    let (l, at, apart) = home_of_blocked th.state b in
    let own = owner_home k i t th here ∙ at in
    let (k', ran, m) = wake_up-Moved t th k here l apart own at in
    (
      l,
      k',
      ran,
      Moved-Inv t th (awake th) l ready_threads k k' here own refl refl apart i m
          (λ q. omega (arith, unwanted q)),
      m,
    )

-- A ready thread must not be woken up: the insertion into the ready list fails its ASSERT.
pub wake_up_ready :
    (k : Kernel) (i : Inv k) (t : ℕ) (th : Thread)
    → k.thread t ≡ some th
    → th.state ≡ ready
    → wake_up t k ≡ none
unfolding wake_up push_back
wake_up_ready k i t th here r =
    rw here (rw r (rw here (rw (owner_home k i t th here ∙ ap home r) refl)))
