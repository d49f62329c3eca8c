-- ===== src/Filesystem/Tests.antt =====
-- The theorems of pipes and open files, at concrete inputs.
use cyan_oskernel.Prelude.{none, some, [], ◌∷◌, ◌==◌, if◌then◌else◌}
use cyan_oskernel.Tasking.Thread.{blocked_queue, blocked_threads, Kernel, blocked}
use cyan_oskernel.Tasking.Thread.Inv.{Inv}
use cyan_oskernel.Filesystem.Pipe.{Pipe}
use cyan_oskernel.Filesystem.FileDescription.{FileDescription}

-- Thread 2 waits on queue 7.
abbrev kernel : Kernel
kernel = record {
  thread = λ t.
      if t == 2
      then some (record {
        state = blocked_queue;
        owner = some blocked_threads;
        blocker = some 7;
        sleep_ticks = 0;
      })
      else none;
  list = λ l. elim l [ blocked_threads ↦ 2 ∷ [] | _ ↦ [] ];
  ticks = 10;
  entries = λ q. if q == 7 then record { tid = 2; state = blocked } ∷ [] else [];
  tid_bitmap = λ t. t == 2;
}

-- A pipe of two bytes, of which one is written.
abbrev pipe : Pipe
pipe = record {
  buffer = record { data_slots = some 5 ∷ none ∷ []; head = 0; tail = 1; size = 1; capacity = 2 };
  wait_queue = 7;
  readers = 1;
  writers = 1;
}

-- Nobody waits on queue 8.
abbrev lonely : Pipe
lonely = record pipe { wait_queue = 8 }

abbrev file : FileDescription
file = record { current_position = 10; node_size = 30 }

abbrev moved : FileDescription
moved = record { current_position = 4; node_size = 30 }
