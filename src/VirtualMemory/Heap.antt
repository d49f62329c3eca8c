-- ===== src/VirtualMemory/Heap.antt =====
-- `kernel/virtual_memory/heap.cpp` and the class `BigSlabAllocator` of `slab_allocator.h`: the
-- allocator of the kernel, a chain of slabs for each of five sizes and pages for a larger request.
pub mod RoundTrip
pub mod Setup
mod Tests
use cyan_oskernel.Prelude.{
  ℕ, zero, suc, ◌+◌, ◌-◌, ◌%◌, ◌^◌, true, false, not, Option, none, some, leb, ◌==◌, if◌then◌else◌,
  ◌>>=◌, ◌>>◌, assert,
}
use cyan_oskernel.VirtualMemory.Slab.{
  Memory, MemoryBlock, magic_number, put_block, request_memory_from_os, free_memory_to_os, init,
}
use cyan_oskernel.VirtualMemory.Slab

-- The addresses of the five slabs that are static members.
pub record Heap : Type 0 where
  pub slab_0x10 : ℕ
  pub slab_0x20 : ℕ
  pub slab_0x40 : ℕ
  pub slab_0x80 : ℕ
  pub slab_0x100 : ℕ

-- `BigSlab`: the magic number, and a block behind it.
abbrev pub size_of_big_slab : ℕ
size_of_big_slab = 16

-- The request is not tested: where it is refused, the null pointer is written to.
unfoldable pub big_alloc : ℕ → Memory → Option (ℕ × Memory)
unfolding request_memory_from_os
big_alloc size m =
    let mem_block = (request_memory_from_os m).0 in
    let m' = (request_memory_from_os m).1 in
    assert (not (mem_block == 0))
    >> some (
      mem_block + 12,
      put_block (mem_block + 4)
          (record { slab_ptr = mem_block; slab_size = (size + size_of_big_slab) % 2 ^ 32 })
          (record m' { magics = λ b. if b == mem_block then magic_number else m'.magics b }),
    )

unfoldable pub big_free : ℕ → Memory → Option Memory
unfolding free_memory_to_os
big_free slab m =
    assert (m.magics slab == magic_number)
    >> some (free_memory_to_os slab (m.blocks (slab + 4)).slab_size m)

unfoldable pub setup : Heap → Memory → Memory
unfolding init
setup h m = init 0x100 h.slab_0x100 0 (
    init 0x80 h.slab_0x80 0
      (init 0x40 h.slab_0x40 0 (init 0x20 h.slab_0x20 0 (init 0x10 h.slab_0x10 0 m))))

-- The fuel bounds the slabs that are asked.
unfoldable pub kmalloc : ℕ → Heap → ℕ → Memory → Option (ℕ × Memory)
unfolding big_alloc
kmalloc fuel h size m =
    if size == 0
    then some (0, m)
    else if leb size 0x10
    then Slab.alloc 0x10 fuel h.slab_0x10 m
    else if leb size 0x20
    then Slab.alloc 0x20 fuel h.slab_0x20 m
    else if leb size 0x40
    then Slab.alloc 0x40 fuel h.slab_0x40 m
    else if leb size 0x80
    then Slab.alloc 0x80 fuel h.slab_0x80 m
    else if leb size 0x100
    then Slab.alloc 0x100 fuel h.slab_0x100 m
    else big_alloc size m

-- The block of an address stands 8 bytes before it.
unfoldable pub kfree : ℕ → Memory → Option Memory
unfolding big_free
kfree address m =
    if address == 0
    then some m
    else let block = m.blocks (address - 8) in
      assert (not (block.slab_ptr == 0))
      >> (if block.slab_size == 0x10
          then Slab.free 0x10 block.slab_ptr address m
          else if block.slab_size == 0x20
          then Slab.free 0x20 block.slab_ptr address m
          else if block.slab_size == 0x40
          then Slab.free 0x40 block.slab_ptr address m
          else if block.slab_size == 0x80
          then Slab.free 0x80 block.slab_ptr address m
          else if block.slab_size == 0x100
          then Slab.free 0x100 block.slab_ptr address m
          else big_free block.slab_ptr m)
