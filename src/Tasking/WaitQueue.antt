-- ===== src/Tasking/WaitQueue.antt =====
-- `kernel/tasking/wait_queue.cpp` and `wait_queue.h`: the entries of a wait queue. What `wait` does
-- before its `yield` and after it are two functions: other threads run between them. The spinlock
-- of a queue is held throughout each function.
pub mod Wake
pub mod WakeAll
pub mod Wait
pub mod Stale
use cyan_oskernel.Prelude.{remove_at}
use cyan_oskernel.Prelude.{
  ℕ, zero, suc, ◌+◌, Bool, true, false, Option, none, some, List, [], ◌∷◌, ◌++◌, ◌==◌,
  if◌then◌else◌, length, get_elem?, set, ◌>>=◌, ◌>>◌, assert, not,
}
use cyan_oskernel.Tasking.Thread
use cyan_oskernel.Tasking.Thread.{
  Kernel, Entry, WaitState, blocked, woken_up_normally, timeout, put_entries,
}

abbrev pub is_blocked_state : WaitState → Bool
is_blocked_state blocked = true
is_blocked_state _ = false

-- `m_queue.find_if`: the index of the first entry in state Blocked.
unfoldable pub find_blocked : List Entry → Option ℕ
find_blocked [] = none
find_blocked (e ∷ es) =
    if is_blocked_state e.state then some 0 else find_blocked es >>= λ i. some (suc i)

-- `wake_up_queue`, of the entry at an index.
unfoldable pub wake_up_queue : ℕ → ℕ → Kernel → Option Kernel
wake_up_queue q i k = do
  e ← get_elem? (k.entries q) i
  Thread.wake_up e.tid
      (put_entries q (set (k.entries q) i (record e { state = woken_up_normally })) k)

unfoldable pub wake_up : ℕ → Kernel → Option Kernel
unfolding find_blocked
wake_up q k = do i ← find_blocked (k.entries q); wake_up_queue q i k

-- The loop of `wake_up_all`, with the entries left.
unfoldable pub wake_loop : ℕ → ℕ → ℕ → Kernel → Option Kernel
wake_loop zero i q k = some k
wake_loop (suc n) i q k = elim (get_elem? (k.entries q) i) [
  | none ↦ none
  | some e ↦ elim (is_blocked_state e.state) [
    | true ↦ wake_up_queue q i k >>= wake_loop n (suc i) q
    | false ↦ wake_loop n (suc i) q k
  ]
]

-- No round changes the number of entries.
unfoldable pub wake_up_all : ℕ → Kernel → Option Kernel
unfolding wake_loop
wake_up_all q k = wake_loop (length (k.entries q)) 0 q k

unfoldable pub is_empty_queue : ℕ → Kernel → Bool
unfolding find_blocked
is_empty_queue q k = elim (find_blocked (k.entries q)) [ none ↦ true | some _ ↦ false ]

-- `wait` up to its `yield`. The result is the iterator, an index into the entries.
unfoldable pub wait_start : ℕ → ℕ → ℕ → Kernel → Option (ℕ × Kernel)
wait_start q t ms_timeout k = do
  k ← Thread.block t q ms_timeout k
  some (
    length (k.entries q),
    put_entries q (k.entries q ++ record { tid = t; state = blocked } ∷ []) k,
  )

-- `wait` after its `yield`: the state of the entry at the iterator's index, which `Vector::remove`
-- takes out.
unfoldable pub wait_finish : ℕ → ℕ → Kernel → Option (WaitState × Kernel)
wait_finish q i k = do
  e ← get_elem? (k.entries q) i
  some (e.state, put_entries q (remove_at (k.entries q) i) k)

-- One round of `wait_on_event` up to its `yield`, after the first: the thread is blocked again, and
-- its entry stays as it is.
unfoldable pub wait_again : ℕ → ℕ → ℕ → Kernel → Option Kernel
wait_again q t ms_timeout k = Thread.block t q ms_timeout k
