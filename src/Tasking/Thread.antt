-- ===== src/Tasking/Thread.antt =====
-- `kernel/tasking/thread.cpp`: the states of the threads and the lists that they stand on.
-- A thread and a wait queue are named by numbers, for their addresses. A list of threads is the
-- list of their names; the link fields of `intrusive_list.h` show as the `owner` of a thread, which
-- its ASSERTs test. `none` is a failed ASSERT, or the use of a thread that is gone.
pub mod Lists
pub mod Inv
pub mod Moves
pub mod Rouse
pub mod Sleepers
pub mod Terminate
mod Tests
use cyan_oskernel.Prelude.{
  ℕ, zero, suc, ◌+◌, ◌%◌, ◌^◌, Bool, true, false, Option, none, some, List, [], ◌∷◌, ◌++◌, ◌||◌,
  ◌==◌, leb, ltb, if◌then◌else◌, ◌>>=◌, ◌>>◌, assert,
}
unfoldable pub use cyan_oskernel.Stdlib.Links.{erase}

pub data ThreadState : Type 0 where
  ready blocked_sleep blocked_queue blocked_queue_timed suspended : ThreadState

-- The four static lists.
pub data ListName : Type 0 where
  ready_threads sleeping_threads blocked_threads blocked_timed_threads : ListName

abbrev pub same_list : ListName → ListName → Bool
same_list ready_threads ready_threads = true
same_list sleeping_threads sleeping_threads = true
same_list blocked_threads blocked_threads = true
same_list blocked_timed_threads blocked_timed_threads = true
same_list _ _ = false

-- The members of a thread that its states turn on.
pub record Thread : Type 0 where
  pub state : ThreadState
  pub owner : Option ListName
  pub blocker : Option ℕ
  pub sleep_ticks : ℕ

-- `WaitQueue::State`.
pub data WaitState : Type 0 where
  blocked woken_up_normally timeout : WaitState

-- `WaitQueue::Queue`.
pub record Entry : Type 0 where
  pub tid : ℕ
  pub state : WaitState

-- What threads and wait queues share: the threads, the lists, the clock `PIT::ticks`, the entries
-- of each wait queue, and the bits of `tid_bitmap`.
pub record Kernel : Type 0 where
  pub thread : ℕ → Option Thread
  pub list : ListName → List ℕ
  pub ticks : ℕ
  pub entries : ℕ → List Entry
  pub tid_bitmap : ℕ → Bool

abbrev pub put_thread : ℕ → Option Thread → Kernel → Kernel
put_thread t th k = record k { thread = λ u. if t == u then th else k.thread u }

abbrev pub put_list : ListName → List ℕ → Kernel → Kernel
put_list l ts k = record k { list = λ l'. if same_list l l' then ts else k.list l' }

abbrev pub put_tid : ℕ → Bool → Kernel → Kernel
put_tid t b k = record k { tid_bitmap = λ u. if t == u then b else k.tid_bitmap u }

abbrev pub put_entries : ℕ → List Entry → Kernel → Kernel
put_entries q es k = record k { entries = λ q'. if q == q' then es else k.entries q' }

-- `IntrusiveList::push_back`: the node must be on no list.
unfoldable pub push_back : ListName → ℕ → Kernel → Option Kernel
push_back l t k = do
  th ← k.thread t
  elim th.owner [
    | none ↦
        some
          (put_list l (k.list l ++ t ∷ []) (put_thread t (some (record th { owner = some l })) k))
    | some _ ↦ none
  ]

-- `IntrusiveList::remove`: the node must be on this list.
unfoldable pub remove : ListName → ℕ → Kernel → Option Kernel
remove l t k = do
  th ← k.thread t
  elim th.owner [
    | none ↦ none
    | some l' ↦
        if same_list l l'
        then some
            (put_list l (erase t (k.list l)) (put_thread t (some (record th { owner = none })) k))
        else none
  ]

-- An assignment to members of a thread.
abbrev pub update : ℕ → (Thread → Thread) → Kernel → Option Kernel
update t f k = do th ← k.thread t; some (put_thread t (some (f th)) k)

abbrev pub set_state : ThreadState → Thread → Thread
set_state s th = record th { state = s }

abbrev pub set_blocker : Option ℕ → Thread → Thread
set_blocker b th = record th { blocker = b }

abbrev pub set_ticks : ℕ → Thread → Thread
set_ticks n th = record th { sleep_ticks = n }

-- The list that `wake_up` takes a thread of this state off.
abbrev pub leave : ThreadState → ℕ → Kernel → Option Kernel
leave blocked_sleep t k = remove sleeping_threads t k
leave blocked_queue t k = remove blocked_threads t k
leave blocked_queue_timed t k = remove blocked_timed_threads t k
leave _ t k = some k

unfoldable pub wake_up : ℕ → Kernel → Option Kernel
wake_up t k = do
  th ← k.thread t
  k ← leave th.state t k
  k ← push_back ready_threads t k
  k ← update t (set_state ready) k
  update t (set_blocker none) k

-- A thread as its constructor leaves it, without its number, its stacks and its context.
abbrev pub new_thread : Thread
new_thread = record { state = ready; owner = none; blocker = none; sleep_ticks = 0 }

-- What `reserve_tid` does with the number that the search gives: without a bit left it is
-- `BITMAP_NO_BITS_LEFT`, which `set` ignores.
abbrev pub reserve_tid : ℕ → Kernel → Kernel
reserve_tid t k = if ltb t 65535 then put_tid t true k else k

-- `create_thread`, where `reserve_tid` gives `t`. (`list_new_thread` belongs to the process.)
unfoldable pub create_thread : ℕ → Kernel → Option Kernel
create_thread t k = push_back ready_threads t (put_thread t (some new_thread) (reserve_tid t k))

block_untimed : ℕ → Kernel → Option Kernel
block_untimed t k = do k ← update t (set_state blocked_queue) k; push_back blocked_threads t k

block_timed : ℕ → ℕ → Kernel → Option Kernel
block_timed t ms_timeout k = do
  k ← update t (set_ticks ((k.ticks + ms_timeout) % 2 ^ 32)) k
  k ← update t (set_state blocked_queue_timed) k
  push_back blocked_timed_threads t k

unfoldable pub block : ℕ → ℕ → ℕ → Kernel → Option Kernel
unfolding block_untimed block_timed
block t blocker ms_timeout k = do
  k ← remove ready_threads t k
  k ← if ms_timeout == 0 then block_untimed t k else block_timed t ms_timeout k
  update t (set_blocker (some blocker)) k

-- `sleep`, up to its `yield`.
unfoldable pub sleep : ℕ → ℕ → Kernel → Option Kernel
sleep t ms k = do
  k ← remove ready_threads t k
  k ← update t (set_ticks ((k.ticks + ms) % 2 ^ 32)) k
  k ← update t (set_state blocked_sleep) k
  push_back sleeping_threads t k

-- The search of `WaitQueue::handle_thread_timeout` asks the thread of each entry for its number, up
-- to the entry that it finds.
unfoldable pub time_out : Kernel → ℕ → List Entry → Option (List Entry)
time_out k t [] = none
time_out k t (e ∷ es) = elim (k.thread e.tid) [
  | none ↦ none
  | some _ ↦
      if e.tid == t
      then some (record e { state = timeout } ∷ es)
      else time_out k t es >>= λ es'. some (e ∷ es')
]

unfoldable pub handle_thread_timeout : ℕ → ℕ → Kernel → Option Kernel
unfolding time_out
handle_thread_timeout q t k = do es ← time_out k t (k.entries q); some (put_entries q es k)

-- The entries of other threads.
unfoldable pub without : ℕ → List Entry → List Entry
without t [] = []
without t (e ∷ es) = let rest = without t es in if e.tid == t then rest else e ∷ rest

unfoldable pub has_entry : ℕ → List Entry → Bool
has_entry t [] = false
has_entry t (e ∷ es) = e.tid == t || has_entry t es

-- Whether every thread that an entry points to is there.
unfoldable pub all_there : Kernel → List Entry → Bool
all_there k [] = true
all_there k (e ∷ es) =
    let rest = all_there k es in elim (k.thread e.tid) [ none ↦ false | some _ ↦ rest ]

-- `WaitQueue::handle_thread_terminated`: `remove_if` asks the thread of each entry for its number.
unfoldable pub handle_thread_terminated : ℕ → ℕ → Kernel → Option Kernel
unfolding without has_entry all_there
handle_thread_terminated q t k = do
  assert (all_there k (k.entries q))
  assert (has_entry t (k.entries q))
  some (put_entries q (without t (k.entries q)) k)

-- One round of the loops of `wake_up_sleepers`, for a thread of the sleeping list and for one of
-- the blocked list with timeouts.
unfoldable pub wake_sleeper : ℕ → Kernel → Option Kernel
wake_sleeper t k = do
  th ← k.thread t
  if leb th.sleep_ticks k.ticks then (update t (set_ticks 0) k >>= wake_up t) else some k

unfoldable pub wake_blocked_timed : ℕ → Kernel → Option Kernel
unfolding handle_thread_timeout
wake_blocked_timed t k = do
  th ← k.thread t
  if leb th.sleep_ticks k.ticks
      then (do
        k ← update t (set_ticks 0) k
        q ← th.blocker
        k ← handle_thread_timeout q t k
        wake_up t k)
      else some k

-- The loop over a list, as it stood at each step: the round for a thread takes at most that thread
-- off the list, and the iterator is already past it.
unfoldable pub for_each : (ℕ → Kernel → Option Kernel) → List ℕ → Kernel → Option Kernel
for_each f [] k = some k
for_each f (t ∷ ts) k = f t k >>= for_each f ts

unfoldable pub wake_up_sleepers : Kernel → Option Kernel
unfolding for_each wake_sleeper wake_blocked_timed
wake_up_sleepers k = do
  k ← for_each wake_sleeper (k.list sleeping_threads) k
  for_each wake_blocked_timed (k.list blocked_timed_threads) k

-- What `terminate` does for a state, before the thread is unlisted and deleted.
abbrev pub terminate_from : ThreadState → ℕ → Option ℕ → Kernel → Option Kernel
terminate_from ready t b k = remove ready_threads t k
terminate_from blocked_sleep t b k = remove sleeping_threads t k
terminate_from blocked_queue t b k = do
  q ← b
  k ← remove blocked_threads t k
  handle_thread_terminated q t k
terminate_from blocked_queue_timed t b k = do
  q ← b
  k ← remove blocked_timed_threads t k
  handle_thread_terminated q t k
terminate_from suspended t b k = none

-- `terminate`, with the thread gone: `~Thread` tests the bit of its number and clears it.
-- (`unlist_new_thread` belongs to the process.)
unfoldable pub terminate : ℕ → Kernel → Option Kernel
terminate t k = do
  th ← k.thread t
  k ← terminate_from th.state t th.blocker k
  assert (k.tid_bitmap t)
  some (put_tid t false (put_thread t none k))
