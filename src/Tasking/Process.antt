-- ===== src/Tasking/Process.antt =====
-- `kernel/tasking/process.cpp`: the end of a process, its threads, and the descriptors that keep it.
-- `none` is a failed ASSERT, or the use of a process that is freed. A process is with the kernel
-- that its threads stand in; its lock is held throughout each function.
pub mod References
mod Tests
use cyan_oskernel.Prelude.{
  ℕ, zero, suc, ◌+◌, ◌-◌, ◌%◌, ◌^◌, Bool, true, false, not, ◌&&◌, Option, none, some, List, [], ◌∷◌,
  ◌++◌, ◌==◌, if◌then◌else◌, ◌>>=◌, ◌>>◌, assert,
}
use cyan_oskernel.Tasking.Thread.{Kernel}
use cyan_oskernel.Tasking.WaitQueue.{wake_up_all}

pub data ProcessState : Type 0 where
  ready blocked suspended zombie : ProcessState

abbrev pub is_zombie : ProcessState → Bool
is_zombie zombie = true
is_zombie _ = false

-- The members that the end of a process turns on.
pub record Process : Type 0 where
  pub m_state : ProcessState
  pub m_descriptor_references : ℕ
  pub m_threads : List ℕ
  pub m_return_status : ℕ
  pub m_singal_waiting_queue : ℕ

-- A process, where it is not freed yet, and the kernel.
pub record World : Type 0 where
  pub kernel : Kernel
  pub process : Option Process

abbrev pub list_new_thread : ℕ → Process → Process
list_new_thread t p = record p { m_threads = p.m_threads ++ t ∷ [] }

-- `remove_if`, of the entries with the thread's number.
unfoldable pub without_tid : ℕ → List ℕ → List ℕ
without_tid t [] = []
without_tid t (u ∷ us) = let rest = without_tid t us in if u == t then rest else u ∷ rest

abbrev pub unlist_new_thread : ℕ → Process → Process
unlist_new_thread t p = record p { m_threads = without_tid t p.m_threads }

-- The loop of `terminate` over the nodes of `m_threads`: the end of a thread removes its node from
-- the list and deletes it, and the loop reads the next link from that node.
unfoldable pub end_threads : Process → Kernel → Option (Process × Kernel)
end_threads p k = elim p.m_threads [ [] ↦ some (p, k) | t ∷ ts ↦ none ]

unfoldable pub terminate : ℕ → World → Option World
unfolding end_threads
terminate status_code w = do
  p ← w.process
  (p, k) ← end_threads p w.kernel
  assert (not (is_zombie p.m_state))
  k ← wake_up_all p.m_singal_waiting_queue k
  some (record {
    kernel = k;
    process =
        (if p.m_descriptor_references == 0
          then none
          else some (record p { m_state = zombie; m_return_status = status_code }));
  })

unfoldable pub descriptor_referenced : World → Option World
descriptor_referenced w = do
  p ← w.process
  some (record w {
    process = some (record p { m_descriptor_references = suc p.m_descriptor_references % 2 ^ 32 });
  })

unfoldable pub descriptor_dereferenced : World → Option World
descriptor_dereferenced w = do
  p ← w.process
  assert (not (p.m_descriptor_references == 0))
  some (record w {
    process =
        (if is_zombie p.m_state && p.m_descriptor_references - 1 == 0
          then none
          else some (record p { m_descriptor_references = p.m_descriptor_references - 1 }));
  })
