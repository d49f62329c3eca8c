-- ===== src/VirtualMemory/Heap/RoundTrip.antt =====
-- What the kernel's allocator gives out and takes back.
use cyan_oskernel.Prelude.{
  ℕ, ◌+◌, ◌-◌, ◌/◌, ◌%◌, ◌^◌, ◌≤◌, ◌<◌, ◌≡◌, ◌≢◌, ◌⊎◌, inl, inr, refl, sym, ap, ◌∙◌, true, false,
  some, List, [], ◌∷◌, arith, leb, ◌==◌, if◌then◌else◌, Bool-cases, length,
}
use cyan_oskernel.Stdlib.Links.{mem, distinct}
use cyan_oskernel.VirtualMemory.Slab.{
  Memory, MemoryBlock, max_blocks, blocks_address, block_address, data_address, take_answer,
  is_address_in_slab, put_block, magic_number, request_memory_from_os, free_memory_to_os,
}
use cyan_oskernel.VirtualMemory.Slab
use cyan_oskernel.VirtualMemory.Slab.Alloc.{marked}
use cyan_oskernel.VirtualMemory.Slab.Chain.{Linked, Supplied, Allocated, taken, grown, refused}
use cyan_oskernel.VirtualMemory.Slab.Serve.{alloc-Allocated}
use cyan_oskernel.VirtualMemory.Slab.Free.{Given, Freed, free-Freed}
use cyan_oskernel.VirtualMemory.Heap.{Heap, big_alloc, big_free, kmalloc, kfree}

-- The five sizes of blocks.
pub data IsClass : ℕ → Type 0 where
  is_0x10 : IsClass 0x10
  is_0x20 : IsClass 0x20
  is_0x40 : IsClass 0x40
  is_0x80 : IsClass 0x80
  is_0x100 : IsClass 0x100

-- Where block `i` of a slab lies.
InPlace : ℕ → ℕ → ℕ → Type 0
InPlace s b i =
    ((data_address s b i - blocks_address s b) / (s + 8) ≡ i)
    × (is_address_in_slab s b (data_address s b i) ≡ true)

in_place : (s b i : ℕ) → IsClass s → i < max_blocks s → InPlace s b i
unfolding max_blocks is_address_in_slab InPlace
in_place s b i is_0x10 lt = (omega arith, ground arith)
in_place s b i is_0x20 lt = (omega arith, ground arith)
in_place s b i is_0x40 lt = (omega arith, ground arith)
in_place s b i is_0x80 lt = (omega arith, ground arith)
in_place s b i is_0x100 lt = (omega arith, ground arith)

-- `kfree` of an address asks the slab that the header of its block names.
kfree-class :
    (s b p : ℕ) (m : Memory)
    → IsClass s
    → (p == 0) ≡ false
    → (b == 0) ≡ false
    → m.blocks (p - 8) ≡ record { slab_ptr = b; slab_size = s }
    → kfree p m ≡ Slab.free s b p m
unfolding kfree
kfree-class s b p m is_0x10 pos there stamp = rw (pos, kfree) (rw stamp (rw there refl))
kfree-class s b p m is_0x20 pos there stamp = rw (pos, kfree) (rw stamp (rw there refl))
kfree-class s b p m is_0x40 pos there stamp = rw (pos, kfree) (rw stamp (rw there refl))
kfree-class s b p m is_0x80 pos there stamp = rw (pos, kfree) (rw stamp (rw there refl))
kfree-class s b p m is_0x100 pos there stamp = rw (pos, kfree) (rw stamp (rw there refl))

-- A block in use is taken back by the slab that gave it, whichever slab that is, and by no other.
pub kfree-Freed :
    (s b i p : ℕ) (m : Memory)
    → IsClass s
    → Given s b i m p
    → (m' : Memory) × (kfree p m ≡ some m') × Freed s b i m m'
unfolding InPlace
kfree-Freed s b i p m class given =
    let (at, inside) = in_place s b i class given.index in
    let here : p - 8 ≡ block_address s b i = omega (arith, given.address) in
    let (m', ran, freed) =
      free-Freed s b i m p given
        (ap (λ (x : ℕ). (x - blocks_address s b) / (s + 8)) given.address ∙ at)
        (ap (λ (x : ℕ). is_address_in_slab s b x) given.address ∙ inside) in
    let there : (b == 0) ≡ false = ground (arith, given.there) in
    let pos : (p == 0) ≡ false = ground (arith, given.address) in
    (
      m',
      kfree-class s b p m class pos there (ap (λ (x : ℕ). m.blocks x) here ∙ given.stamp) ∙ ran,
      freed,
    )

-- The size of the blocks that serve a request of up to 256 bytes, and the first of their slabs.
unfoldable pub class_of : ℕ → ℕ
class_of size =
    if leb size 0x10
    then 0x10
    else if leb size 0x20
    then 0x20
    else if leb size 0x40
    then 0x40
    else if leb size 0x80
    then 0x80
    else 0x100

unfoldable pub slab_of : Heap → ℕ → ℕ
slab_of h size =
    if leb size 0x10
    then h.slab_0x10
    else if leb size 0x20
    then h.slab_0x20
    else if leb size 0x40
    then h.slab_0x40
    else if leb size 0x80
    then h.slab_0x80
    else h.slab_0x100

class_of-IsClass : (size : ℕ) → IsClass (class_of size)
unfolding class_of
class_of-IsClass size = ground (arith, is_0x10, is_0x20, is_0x40, is_0x80, is_0x100)

-- A page has a block of each size.
pub IsClass-blocks : (s : ℕ) → IsClass s → 0 < max_blocks s
unfolding max_blocks
IsClass-blocks s is_0x10 = omega arith
IsClass-blocks s is_0x20 = omega arith
IsClass-blocks s is_0x40 = omega arith
IsClass-blocks s is_0x80 = omega arith
IsClass-blocks s is_0x100 = omega arith

kmalloc-class :
    (fuel size : ℕ) (h : Heap) (m : Memory)
    → 0 < size
    → size ≤ 0x100
    → kmalloc fuel h size m ≡ Slab.alloc (class_of size) fuel (slab_of h size) m
unfolding kmalloc class_of slab_of
kmalloc-class fuel size h m pos small = ground arith

class_of-fits : (size : ℕ) → size ≤ 0x100 → size ≤ class_of size
unfolding class_of
class_of-fits size small = ground arith

Linked-pos :
    (s a b : ℕ) (bs : List ℕ) (m : Memory) → a ≢ 0 → Linked s m a bs → mem b (a ∷ bs) ≡ true → b ≢ 0
unfolding Linked mem
Linked-pos s a b [] m pos linked there e = ground (arith, there)
Linked-pos s a b (c ∷ bs) m pos (slab, next, some_slab, rest) there e = elim (Bool-cases (a == b)) [
  | inl same ↦ ground (arith, same)
  | inr other ↦ Linked-pos s c b bs m some_slab rest (ground (arith, there)) e
]

-- What was allocated is in use, and its slab's other blocks are as before.
pub Allocated-Given :
    (s a : ℕ) (bs : List ℕ) (m m' : Memory) (p : ℕ)
    → a ≢ 0
    → Linked s m a bs
    → Allocated s a bs m m' p
    → (p ≡ 0)
      ⊎ ((b : ℕ) × (i : ℕ) × Given s b i m' p
          × ((q : ℕ) → (if i == q then false else marked m' b q) ≡ marked m b q))
Allocated-Given s a bs m m' p pos linked (refused none_left null same) = inl null
Allocated-Given s a bs m m' p pos linked (taken b i there took after) = inr (
  b,
  i,
  record {
    there = Linked-pos s a b bs m pos linked there;
    index = took.index;
    address = took.address;
    taken = took.marks i ∙ ground arith;
    valid = took.valid;
    stamp = took.stamp;
  },
  λ q. elim (Bool-cases (i == q)) [
    | inl same ↦
        let e : i ≡ q = ground arith in rw same (sym took.was_free ∙ ap (λ (x : ℕ). marked m b x) e)
    | inr other ↦ rw other (took.marks q ∙ rw other refl)
  ],
)
Allocated-Given s a bs m m' p pos linked (grown b i g) = inr (
  b,
  i,
  record {
    there = g.there;
    index = g.index;
    address = g.address;
    taken = g.marks i ∙ ground arith;
    valid = g.valid;
    stamp = g.stamp;
  },
  λ q. elim (Bool-cases (i == q)) [
    | inl same ↦ rw same (sym (g.was_empty q))
    | inr other ↦ rw other (g.marks q ∙ other ∙ sym (g.was_empty q))
  ],
)

-- A request of 1 to 256 bytes ends from a chain of slabs in order, where the search of one of its
-- slabs finds a free block, or the system refuses a page, or the page that it gives is none of the
-- slabs and holds an empty bitmap already, which the code does not see to. Either it gives the null
-- pointer, or a block that is at least as large and in use from then on, and `kfree` of its address
-- ends and makes the bitmap of its slab what it was before.
pub kfree-kmalloc :
    (h : Heap) (size : ℕ) (bs : List ℕ) (m : Memory) (fuel : ℕ)
    → 0 < size
    → size ≤ 0x100
    → slab_of h size ≢ 0
    → Linked (class_of size) m (slab_of h size) bs
    → distinct (slab_of h size ∷ bs) ≡ true
    → Supplied (class_of size) m (slab_of h size ∷ bs)
    → length bs + 2 ≤ fuel
    → (p : ℕ) × (m' : Memory) × (kmalloc fuel h size m ≡ some (p, m'))
      × ((p ≡ 0)
          ⊎ ((b : ℕ) × (i : ℕ) × (m'' : Memory) × (size ≤ class_of size)
              × Given (class_of size) b i m' p
              × (kfree p m' ≡ some m'')
              × ((q : ℕ) → marked m'' b q ≡ marked m b q)))
kfree-kmalloc h size bs m fuel pos small slab linked apart supplied enough =
    let class = class_of-IsClass size in
    let (p, m', ran, out) =
      alloc-Allocated (class_of size) (slab_of h size) bs m fuel
        (IsClass-blocks (class_of size) class) slab linked apart supplied enough in
    (
      p,
      m',
      kmalloc-class fuel size h m pos small ∙ ran,
      elim (Allocated-Given (class_of size) (slab_of h size) bs m m' p slab linked out) [
        | inl null ↦ inl null
        | inr (b, i, given, before) ↦
            let (m'', went, freed) = kfree-Freed (class_of size) b i p m' class given in
            inr (b, i, m'', class_of-fits size small, given, went, λ q. freed.marks q ∙ before q)
      ],
    )

-- A larger request, whose size with the header fits 32 bits, is served with the page that the system
-- gives, and `kfree` of its address gives those very pages back and touches no slab.
pub kfree-kmalloc_big :
    (h : Heap) (size : ℕ) (m : Memory) (fuel : ℕ)
    → 0x100 < size
    → size + 16 < 2 ^ 32
    → (take_answer m.answers).0 ≢ 0
    → (p : ℕ) × (m' : Memory) × (m'' : Memory) × (kmalloc fuel h size m ≡ some (p, m'))
      × (kfree p m' ≡ some m'')
      × (m''.given_back ≡ ((take_answer m.answers).0, size + 16) ∷ m.given_back)
      × (m''.headers ≡ m.headers)
unfolding kmalloc kfree big_alloc big_free request_memory_from_os free_memory_to_os
kfree-kmalloc_big h size m fuel large fits given =
    let b = (take_answer m.answers).0 in
    let m' : Memory =
      put_block (b + 4) (record { slab_ptr = b; slab_size = (size + 16) % 2 ^ 32 })
        (record m {
          answers = (take_answer m.answers).1;
          magics = λ c. if c == b then magic_number else m.magics c;
        }) in
    let there : (b == 0) ≡ false = ground arith in
    (
      b + 12,
      m',
      record m' { given_back = (b, size + 16) ∷ m.given_back },
      ground (arith, there),
      ground (arith, there),
      refl,
      refl,
    )
