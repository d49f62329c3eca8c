-- ===== src/Tasking/Thread/Sleepers.antt =====
-- `wake_up_sleepers` wakes exactly the threads whose deadline has come.
use cyan_oskernel.Prelude.{
  ℕ, ◌≡◌, inl, inr, true, Option, none, some, List, arith, if◌then◌else◌, Option-cases,
}
use cyan_oskernel.Tasking.Thread.{
  blocked_sleep, blocked_queue_timed, ListName, sleeping_threads, blocked_timed_threads, same_list,
  Thread, Kernel, wake_sleeper, wake_blocked_timed, wake_up_sleepers,
}
use cyan_oskernel.Tasking.Thread.Lists.{count}
use cyan_oskernel.Tasking.Thread.Inv.{home, Inv}
use cyan_oskernel.Tasking.Thread.Rouse.{
  names_queue, Entered, rouse, Rounds, Swept, sweep-Swept, wake_sleeper-Round,
  wake_blocked_timed-Round, sleeps_at, times_at,
}

-- What becomes of a thread at a time: one that sleeps, or is blocked with a timeout, is looked at.
abbrev pub after_deadline : ℕ → Option Thread → Option Thread
after_deadline now none = none
after_deadline now (some th) = elim th.state [
  | blocked_sleep ↦ some (rouse now th)
  | blocked_queue_timed ↦ some (rouse now th)
  | _ ↦ some th
]

sleeping_Rounds : Rounds sleeping_threads wake_sleeper
sleeping_Rounds k i en t th here own =
    wake_sleeper-Round k i en t th here (sleeps_at k i t th here own)

queue_of :
    (th : Thread)
    → th.state ≡ blocked_queue_timed
    → names_queue (some th) ≡ true
    → (q : ℕ) × (th.blocker ≡ some q)
queue_of th timed named = elim (Option-cases th.blocker) [
  | inl e ↦ absurd (ground arith)
  | inr p ↦ p
]

timed_Rounds : Rounds blocked_timed_threads wake_blocked_timed
timed_Rounds k i en t th here own =
    let timed = times_at k i t th here own in
    let (q, on) = queue_of th timed (ground (arith, en.named t)) in
    wake_blocked_timed-Round k i en t th here q timed on

-- Which threads stand on a list, by their state.
abbrev on_list : Option Thread → ListName → ℕ
on_list none l = 0
on_list (some th) l = elim (home th.state) [ none ↦ 0 | some l' ↦ if same_list l' l then 1 else 0 ]

listed : (k : Kernel) → Inv k → (t : ℕ) (l : ListName) → count t (k.list l) ≡ on_list (k.thread t) l
listed k i t l = ground (arith, i.members t l, i.homes t)

-- One thread through both loops.
both :
    (k : Kernel)
    → Inv k
    → (ts ts' : List ℕ) (k1 k2 : Kernel) → Swept ts k k1
    → Swept ts' k1 k2
    → (t : ℕ) → count t ts ≡ on_list (k.thread t) sleeping_threads
    → count t ts' ≡ on_list (k1.thread t) blocked_timed_threads
    → k2.thread t ≡ after_deadline k.ticks (k.thread t)
both k i ts ts' k1 k2 s1 s2 t first second = elim (Option-cases (k.thread t)) [
  | inl gone ↦ ground (arith, s1.others t, s2.others t)
  | inr (th, here) ↦ ground (
    arith,
    s1.others t,
    s2.others t,
    s1.roused t th,
    s2.roused t th,
    s2.roused t (rouse k.ticks th),
    s1.ticks_kept,
  )
]

module _ (k : Kernel) (i : Inv k) (en : Entered k) where
  -- Under the invariant, where every thread that is blocked on a queue has its entry there and every
  -- entry of a queue is of a thread that is still there, `wake_up_sleepers` fails no ASSERT and uses
  -- no thread that is gone: it makes ready each thread that sleeps or waits with a
  -- timeout and whose deadline has come, leaves every other thread as it is, and keeps the invariant.
  pub wake_up_sleepers-Inv :
      (k' : Kernel) × (wake_up_sleepers k ≡ some k')
      × Inv k'
      × Entered k'
      × ((t : ℕ) → k'.thread t ≡ after_deadline k.ticks (k.thread t))
  unfolding wake_up_sleepers
  wake_up_sleepers-Inv =
      let (k1, ran1, s1) =
        sweep-Swept sleeping_threads wake_sleeper sleeping_Rounds (k.list sleeping_threads) k i en
          (λ u. ground (arith, i.members u sleeping_threads)) in
      let (k2, ran2, s2) =
        sweep-Swept blocked_timed_threads wake_blocked_timed timed_Rounds
          (k1.list blocked_timed_threads) k1 s1.valid s1.entered
          (λ u. ground (arith, s1.valid.members u blocked_timed_threads)) in
      (
        k2,
        rw ran1 ran2,
        s2.valid,
        s2.entered,
        λ t.
            both k i (k.list sleeping_threads) (k1.list blocked_timed_threads) k1 k2 s1 s2 t
              (listed k i t sleeping_threads) (listed k1 s1.valid t blocked_timed_threads),
      )
