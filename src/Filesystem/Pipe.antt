-- ===== src/Filesystem/Pipe.antt =====
-- `kernel/filesystem/pipes/pipe.cpp`: a ring of bytes with one queue of waiting threads. `read` and
-- `write` are cut where `wait_on_event` waits: their first part says whether it does, and the last
-- part runs when the condition holds. `none` is a failed ASSERT.
pub mod Transfer
use cyan_oskernel.Prelude.{
  ℕ, zero, suc, ◌+◌, ◌-◌, Bool, true, false, not, Option, none, some, List, [], ◌∷◌, ◌==◌, ltb, min,
  if◌then◌else◌, length, ◌>>=◌, ◌>>◌, assert,
}
use cyan_oskernel.Stdlib.CircularBuffer.{
  CircularBuffer, is_empty, is_full, available_size, queue, dequeue,
}
use cyan_oskernel.Tasking.Thread.{Kernel}
use cyan_oskernel.Tasking.WaitQueue

-- `om_other` is every other value of an `OpenMode`.
pub data OpenMode : Type 0 where
  om_read om_write om_other : OpenMode

pub record Pipe : Type 0 where
  pub buffer : CircularBuffer ℕ
  pub wait_queue : ℕ
  pub readers : ℕ
  pub writers : ℕ

abbrev pub buffer_size : ℕ
buffer_size = 1024

-- The result of `open`: the pipe, or ERROR_INVALID_PARAMETER.
unfoldable pub open_pipe : OpenMode → Pipe → Option Pipe
open_pipe om_read p = some (record p { readers = p.readers + 1 })
open_pipe om_write p = some (record p { writers = p.writers + 1 })
open_pipe om_other p = none

unfoldable pub close_pipe : OpenMode → Pipe → Option Pipe
close_pipe om_read p = assert (not (p.readers == 0)) >> some (record p { readers = p.readers - 1 })
close_pipe om_write p = assert (not (p.writers == 0)) >> some (record p { writers = p.writers - 1 })
close_pipe om_other p = none

unfoldable pub can_read : Pipe → Bool
can_read p = not (is_empty p.buffer)

unfoldable pub can_write : Pipe → Bool
can_write p = not (is_full p.buffer)

-- What `read` and `write` do first: return ERROR_EOF, wait, or go on.
pub data Start : Type 0 where
  error_eof waits goes_on : Start

unfoldable pub read_begin : ℕ → Pipe → Start
read_begin size p =
    if ltb buffer_size size then error_eof else if can_read p then goes_on else waits

unfoldable pub write_begin : ℕ → Pipe → Start
write_begin size p =
    if ltb buffer_size size then error_eof else if can_write p then goes_on else waits

unfoldable pub dequeue_bytes : ℕ → CircularBuffer ℕ → Option (List ℕ × CircularBuffer ℕ)
dequeue_bytes zero b = some ([], b)
dequeue_bytes (suc n) b = elim (dequeue b) [
  | none ↦ none
  | some r ↦ dequeue_bytes n r.1 >>= λ rest. some (r.0 ∷ rest.0, rest.1)
]

-- The first `n` bytes of the source are put in.
unfoldable pub queue_bytes : ℕ → List ℕ → CircularBuffer ℕ → Option (CircularBuffer ℕ)
queue_bytes zero src b = some b
queue_bytes (suc n) [] b = none
queue_bytes (suc n) (x ∷ src) b = elim (queue b x) [ none ↦ none | some b' ↦ queue_bytes n src b' ]

-- `read` into a buffer of `size` bytes, after the wait.
unfoldable pub read_end : ℕ → Pipe → Kernel → Option (List ℕ × Pipe × Kernel)
read_end size p k = do
  r ← dequeue_bytes (min size p.buffer.size) p.buffer
  k' ← WaitQueue.wake_up p.wait_queue k
  some (r.0, record p { buffer = r.1 }, k')

-- `write`, after the wait.
unfoldable pub write_end : List ℕ → Pipe → Kernel → Option (ℕ × Pipe × Kernel)
write_end src p k = do
  b ← queue_bytes (min (length src) (available_size p.buffer)) src p.buffer
  k' ← WaitQueue.wake_up p.wait_queue k
  some (min (length src) (available_size p.buffer), record p { buffer = b }, k')
