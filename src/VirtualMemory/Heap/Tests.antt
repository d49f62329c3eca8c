-- ===== src/VirtualMemory/Heap/Tests.antt =====
-- The allocator's theorems, at a concrete memory.
use cyan_oskernel.Prelude.{
  ℕ, ◌≤◌, ◌≡◌, ◌⊎◌, inr, refl, true, some, [], ◌∷◌, arith, ◌==◌, if◌then◌else◌,
}
use cyan_oskernel.Stdlib.Links.{mem, distinct}
use cyan_oskernel.Stdlib.Bitmap
use cyan_oskernel.Stdlib.Bitmap.Range.{construct-IsValid}
use cyan_oskernel.VirtualMemory.Slab
use cyan_oskernel.VirtualMemory.Slab.{Memory, max_blocks, init, take_answer}
use cyan_oskernel.VirtualMemory.Slab.Alloc.{marked}
use cyan_oskernel.VirtualMemory.Slab.Chain.{Linked, Fresh, Allocated}
use cyan_oskernel.VirtualMemory.Slab.Free.{Given}
use cyan_oskernel.VirtualMemory.Slab.Serve.{alloc-Allocated}
use cyan_oskernel.VirtualMemory.Heap.{Heap, setup, kmalloc, kfree}
use cyan_oskernel.VirtualMemory.Heap.RoundTrip.{
  is_0x10, is_0x20, is_0x40, is_0x80, is_0x100, IsClass-blocks, class_of, slab_of, kfree-kmalloc,
}
use cyan_oskernel.VirtualMemory.Heap.Setup.{first_slab, slabs_of, Constructed, setup-Linked}

abbrev five : Heap
five = record {
  slab_0x10 = 0x1000;
  slab_0x20 = 0x2000;
  slab_0x40 = 0x3000;
  slab_0x80 = 0x4000;
  slab_0x100 = 0x5000;
}

-- Five slabs whose constructors have run, and two pages of zeros to come.
abbrev raw : Memory
raw = record {
  headers = λ a. record {
    magic = 0;
    size = 0;
    free_blocks = 0;
    next_fit_block = 0;
    prev = 0;
    next = 0;
    mem_map = Bitmap.construct (
        if a == 0x2000
        then max_blocks 0x20
        else if a == 0x3000
        then max_blocks 0x40
        else if a == 0x4000
        then max_blocks 0x80
        else if a == 0x5000
        then max_blocks 0x100
        else max_blocks 0x10);
  };
  blocks = λ p. record { slab_ptr = 0; slab_size = 0 };
  magics = λ b. 0;
  answers = 0x8000 ∷ 0x9000 ∷ [];
  given_back = [];
}

five-distinct : distinct (slabs_of five) ≡ true
unfolding distinct mem slabs_of
five-distinct = refl

raw-Constructed : Constructed five raw
unfolding Constructed first_slab
raw-Constructed s is_0x10 = refl
raw-Constructed s is_0x20 = refl
raw-Constructed s is_0x40 = refl
raw-Constructed s is_0x80 = refl
raw-Constructed s is_0x100 = refl

booted-Linked : Linked 0x10 (setup five raw) 0x1000 []
unfolding first_slab
booted-Linked = setup-Linked five raw 0x10 is_0x10 five-distinct raw-Constructed

booted-Fresh : Fresh 0x10 (setup five raw) (0x1000 ∷ [])
unfolding setup init mem Bitmap.construct
booted-Fresh =
    let (valid, empty) = construct-IsValid (max_blocks 0x10) (unfold max_blocks in omega arith) in
    inr (omega arith, refl, valid, refl, empty)

one_slab-distinct : distinct (0x1000 ∷ []) ≡ true
unfolding distinct mem
one_slab-distinct = refl

kfree-kmalloc_example :
    (p : ℕ) × (m' : Memory) × (kmalloc 2 five 5 (setup five raw) ≡ some (p, m'))
    × ((p ≡ 0)
        ⊎ ((b : ℕ) × (i : ℕ) × (m'' : Memory) × (5 ≤ class_of 5)
            × Given (class_of 5) b i m' p
            × (kfree p m' ≡ some m'')
            × ((q : ℕ) → marked m'' b q ≡ marked (setup five raw) b q)))
unfolding class_of slab_of
kfree-kmalloc_example =
    kfree-kmalloc five 5 [] (setup five raw) 2 (omega arith) (omega arith) (omega arith)
      booted-Linked one_slab-distinct (inr booted-Fresh) (omega arith)

alloc-Allocated_example :
    (p : ℕ) × (m' : Memory) × (Slab.alloc 0x10 2 0x1000 (setup five raw) ≡ some (p, m'))
    × Allocated 0x10 0x1000 [] (setup five raw) m' p
alloc-Allocated_example =
    alloc-Allocated 0x10 0x1000 [] (setup five raw) 2 (IsClass-blocks 0x10 is_0x10) (omega arith)
      booted-Linked one_slab-distinct (inr booted-Fresh) (omega arith)
