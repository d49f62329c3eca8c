-- ===== src/Tasking/Process/References.antt =====
-- The descriptors of a process, and when they free it.
use cyan_oskernel.Tasking.Process.{Process}
