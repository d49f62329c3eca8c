-- ===== src/Tasking/Semaphore.antt =====
-- `kernel/tasking/semaphore.cpp` and `mutex.cpp`: a count and a wait queue. The count is an `int`
-- that the source lets go below 0, by one for each waiting thread, of which there are fewer than
-- 2 ^ 31; a count that grows past the largest `int` is `none`. The semaphore's spinlock is held throughout each function;
-- `acquire` is what happens up to the `yield` of `wait`.
pub mod Balance
use cyan_oskernel.Prelude.{
  ℕ, zero, suc, ℤ, pos, negsuc, ◌+◌, Bool, true, false, Option, none, some, ◌>>=◌, ◌>>◌, assert,
  ltb, ◌-◌, ◌^◌,
}
use cyan_oskernel.Tasking.Thread.{Kernel}
use cyan_oskernel.Tasking.WaitQueue

abbrev pub decrement : ℤ → ℤ
decrement (pos zero) = negsuc 0
decrement (pos (suc n)) = pos n
decrement (negsuc n) = negsuc (suc n)

abbrev pub increment : ℤ → ℤ
increment (pos n) = pos (suc n)
increment (negsuc zero) = pos 0
increment (negsuc (suc n)) = negsuc n

abbrev pub is_negative : ℤ → Bool
is_negative (pos n) = false
is_negative (negsuc n) = true

-- A semaphore: its count and the name of its wait queue.
pub record Semaphore : Type 0 where
  pub count : ℤ
  pub wait_queue : ℕ

-- Whether `m_count + 1` is an `int`.
abbrev pub can_grow : ℤ → Bool
can_grow (pos n) = ltb n (2 ^ 31 - 1)
can_grow (negsuc n) = true

-- `acquire` by thread `t`.
unfoldable pub acquire : ℕ → Semaphore → Kernel → Option (Semaphore × Kernel)
acquire t s k =
    let s' = record s { count = decrement s.count } in
    elim (is_negative s'.count) [
      | true ↦ WaitQueue.wait_start s'.wait_queue t 0 k >>= λ r. some (s', r.1)
      | false ↦ some (s', k)
    ]

unfoldable pub release : Semaphore → Kernel → Option (Semaphore × Kernel)
release s k =
    let s' = record s { count = increment s.count } in
    assert (can_grow s.count) >> elim (is_negative s.count) [
      | true ↦ WaitQueue.wake_up s.wait_queue k >>= λ k'. some (s', k')
      | false ↦ some (s', k)
    ]

-- `Mutex`: a semaphore that starts at 1.
abbrev pub mutex : ℕ → Semaphore
mutex q = record { count = pos 1; wait_queue = q }
