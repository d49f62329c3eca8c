-- ===== src/Tasking/WaitQueue/Stale.antt =====
-- The iterator that `wait` keeps over its `yield`, which the removal of another entry makes stale.
use cyan_oskernel.Tasking.Thread
use cyan_oskernel.Tasking.Thread.{Entry}
use cyan_oskernel.Tasking.Thread.Inv.{Inv}
