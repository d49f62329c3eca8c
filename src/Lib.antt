-- ===== src/Lib.antt =====
-- CyanOS kernel: its tasking, its physical and virtual memory with the heap, TCP, pipes, handles,
-- the console, strings and paths, and the containers under them.
--
-- The kernel runs threads, which stand on four intrusive lists by their state; wait queues block
-- and wake them, and semaphores and mutexes are a count and a wait queue. Memory is given out in
-- pages, of which a bit map keeps the used ones; the heap cuts pages into
-- blocks. Pipes and sockets queue bytes in ring buffers.
--
-- Files, and the sources they model (paths from the root of the repository):
--   Stdlib/CircularBuffer, its Refine and Copy: src/libraries/stdlib/circular_buffer.h. The storage
--     is a list of slots, of which `none` is one without an object; the other members keep their
--     names. `Holds` relates a buffer to the list of its objects.
--   Stdlib/Bitmap, its Range and Find: src/libraries/stdlib/bitmap.cpp. The bytes are a list.
--   VirtualMemory/Physical, its Search and Alloc: src/kernel/virtual_memory/physical.cpp.
--   Tasking/Thread, its Lists, Inv and Moves: src/kernel/tasking/thread.cpp, with push_back and
--     remove of src/libraries/stdlib/intrusive_list.h. The record Kernel holds what threads and
--     wait queues share; threads and queues are named by numbers, for their addresses.
--   Tasking/WaitQueue, its Wake, WakeAll, Wait and Stale: src/kernel/tasking/wait_queue.cpp and .h.
--   Tasking/Semaphore and its Balance: src/kernel/tasking/semaphore.cpp and mutex.cpp.
--   Stdlib/Vector, its Slots, Refine, Insert and Remove: src/libraries/stdlib/vector.h.
--   Network/Tcp, its Handle, Calls, Close and Receive: src/kernel/network/transport_layer/tcp.cpp
--     and tcp.h. The record Network holds a session, the threads and their queues, the ports, and
--     the packets that were sent.
--   Stdlib/Stack and its Refine: src/libraries/stdlib/stack.h.
--   Filesystem/Pipe and its Transfer: src/kernel/filesystem/pipes/pipe.cpp.
--   Filesystem/FileDescription: src/kernel/filesystem/file_description.cpp.
--   Tasking/Thread/Rouse, Sleepers and Terminate: wake_up_sleepers and terminate of
--     src/kernel/tasking/thread.cpp.
--   Tasking/Scheduler and its Fair: src/kernel/tasking/scheduler.cpp.
--   Stdlib/Links, its Erase and Insert: the order of the nodes of a doubly linked list.
--   Stdlib/LinkedList, its Linked, Link, Unlink, Loops and Contents: src/libraries/stdlib/list.h,
--     the class List.
--   Stdlib/IntrusiveList, its Holds, Append and Remove: src/libraries/stdlib/intrusive_list.h. The
--     lists of Tasking/Thread are the orders of its nodes.
--   VirtualMemory/Paging and its Mapped: src/kernel/arch/x86/paging.cpp and paging.h. The record
--     Tables holds the frames of the page tables and the register CR3.
--   VirtualMemory/Virtual and its Search: src/kernel/virtual_memory/virtual.cpp.
--   Stdlib/StringView and its Find: src/libraries/stdlib/string_view.cpp, with memcmp of clib.cpp.
--   Stdlib/PathView and its Count: src/libraries/stdlib/path_view.cpp.
--   Tasking/Process and its References: src/kernel/tasking/process.cpp. The record World is a process with
--     the kernel of its threads.
--   VirtualMemory/Memory, its OnePage and GiveBack: src/kernel/virtual_memory/memory.cpp, with the
--     mapping of virtual.cpp. The record Pages holds the two parts of the state.
--   VirtualMemory/Slab, its Counts, Alloc, Chain, Grow, Serve and Free:
--     src/kernel/virtual_memory/slab_allocator.h. The record Memory holds the headers by address.
--   VirtualMemory/Heap, its RoundTrip and Setup: src/kernel/virtual_memory/heap.cpp.
--   Stdlib/Clib, its Moves and Numbers: src/libraries/stdlib/clib.cpp.
--   Stdlib/String, its Insert and Erase: src/libraries/stdlib/string.cpp and string.h.
--   Filesystem/HandlesManager, its Alive, Change and Remove:
--     src/kernel/filesystem/handles_manager.cpp.
--   Devices/Console, its Cells, Insert and Screen: src/kernel/devices/console/console.cpp and
--     console.h, with the video memory as the list of its cells.
--   Prelude and its children: what the others share. The Tests of each part apply its theorems.
--
-- Functions keep the source's names. A failed ASSERT, a PANIC, an access outside of an object, and
-- the use of one that is deleted are `none`. `size_t`, `u32` and `uintptr_t` are 32 bits wide,
-- and the wrap-around is written out.
-- A function that yields is split there, since other threads run in between; spinlocks are held
-- throughout each part, so that a sequence of parts is an interleaving.
--
-- Loops recur on the rounds that are left. The loop of Bitmap's searches has one round more than
-- there are bits, and every round raises the index; the loop of check_free_pages has one more than
-- there are pages to test; the search for pages has a round for each byte, as the source has.
-- The loops of lists have a round for each node and one more; that of find_pages one for each page
-- of the range and two more; that of StringView::find one for each byte and two more, which is
-- enough for a string that is not longer than the view. An allocation of the heap asks each slab of
-- its chain and one new slab.
--
-- Not modelled: assembly, interrupts and context switches; the memory that page tables are made
-- of, and the heap of programs; the walk of the virtual file system and its file systems, of which
-- there are pipes, handles and positions in files; the network below TCP, the bytes and the checksum
-- of TCP headers; the other devices and the programs; memory that is given back, and the moves of
-- most containers.
pub mod Devices
pub mod Filesystem
pub mod Network
pub mod Prelude
pub mod Stdlib
pub mod Tasking
pub mod VirtualMemory
