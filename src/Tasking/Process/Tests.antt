-- ===== src/Tasking/Process/Tests.antt =====
-- The references of a process.
use cyan_oskernel.Prelude.{false, none, []}
use cyan_oskernel.Tasking.Thread.{Kernel}
use cyan_oskernel.Tasking.Process.{zombie, Process}

abbrev kernel : Kernel
kernel = record {
  thread = λ t. none;
  list = λ l. [];
  ticks = 0;
  entries = λ q. [];
  tid_bitmap = λ t. false;
}

abbrev process : Process
process = record {
  m_state = zombie;
  m_descriptor_references = 0;
  m_threads = [];
  m_return_status = 5;
  m_singal_waiting_queue = 9;
}
