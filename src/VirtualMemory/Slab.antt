-- ===== src/VirtualMemory/Slab.antt =====
-- `kernel/virtual_memory/slab_allocator.h`: slabs of one page each, a chain of them for one size of
-- block, over the bitmap of `static_bitmap.h`, whose bodies are those of `Stdlib/Bitmap.antt`.
-- Numbers are 32 bits wide, and a slab lies inside of the address space. The locks are left out.
-- `none` is an assertion that fails, or fuel that runs out.
pub mod Counts
pub mod Alloc
pub mod Chain
pub mod Grow
pub mod Serve
pub mod Free
use cyan_oskernel.Prelude.{
  ℕ, zero, suc, ◌+◌, ◌-◌, ◌*◌, ◌/◌, ◌%◌, ◌^◌, Bool, true, false, not, ◌&&◌, Option, none, some,
  List, [], ◌∷◌, ◌++◌, leb, ◌==◌, if◌then◌else◌, ◌>>=◌, ◌>>◌, assert,
}
use cyan_oskernel.Stdlib.Bitmap.{
  Bitmap, no_bits_left, set_one, clear_one, find_first_clear, check_set,
}

-- `MAGIC`.
abbrev pub magic_number : ℕ
magic_number = 0x8CBEEFC8

-- `PAGE_SIZE`, the memory of each slab.
abbrev pub memory_size : ℕ
memory_size = 0x1000

-- `SlabHeader`. A slab is named by its address, and 0 is the null pointer.
pub record SlabHeader : Type 0 where
  pub magic : ℕ
  pub size : ℕ
  pub free_blocks : ℕ
  pub next_fit_block : ℕ
  pub prev : ℕ
  pub next : ℕ
  pub mem_map : Bitmap

-- `MemoryBlock`, less its data.
pub record MemoryBlock : Type 0 where
  pub slab_ptr : ℕ
  pub slab_size : ℕ

-- The memory that the heap uses, each part by its address: the headers of the slabs, those of the
-- blocks, and the magic numbers of the big slabs. `answers` are the addresses that `valloc` gives to
-- the requests to come, 0 where it refuses, as it does after the last; `given_back` are the calls of
-- `vfree`, the last first.
pub record Memory : Type 0 where
  pub headers : ℕ → SlabHeader
  pub blocks : ℕ → MemoryBlock
  pub magics : ℕ → ℕ
  pub answers : List ℕ
  pub given_back : List (ℕ × ℕ)

-- `sizeof(SlabHeader<n>)`: six words, and the bitmap of `n` bits up to the next word.
abbrev pub header_size : ℕ → ℕ
header_size n = 24 + (n / 8 + 1 + 3) / 4 * 4

-- `MAX_BLOCKS`.
unfoldable pub max_blocks : ℕ → ℕ
max_blocks s = (memory_size - header_size (memory_size / s)) / (s + 8)

-- The address of the array `blocks`, after the lock and the header.
abbrev pub blocks_address : ℕ → ℕ → ℕ
blocks_address s a = a + 8 + header_size (max_blocks s)

abbrev pub block_address : ℕ → ℕ → ℕ → ℕ
block_address s a i = blocks_address s a + i * (s + 8)

-- `blocks[i].data`.
abbrev pub data_address : ℕ → ℕ → ℕ → ℕ
data_address s a i = block_address s a i + 8

abbrev pub put_header : ℕ → SlabHeader → Memory → Memory
put_header a h m = record m { headers = λ b. if b == a then h else m.headers b }

abbrev pub put_block : ℕ → MemoryBlock → Memory → Memory
put_block p k m = record m { blocks = λ q. if q == p then k else m.blocks q }

-- The answer to the next request, and the others.
abbrev pub take_answer : List ℕ → ℕ × List ℕ
take_answer [] = (0, [])
take_answer (b ∷ bs) = (b, bs)

unfoldable pub request_memory_from_os : Memory → ℕ × Memory
request_memory_from_os m =
    ((take_answer m.answers).0, record m { answers = (take_answer m.answers).1 })

unfoldable pub free_memory_to_os : ℕ → ℕ → Memory → Memory
free_memory_to_os address size m = record m { given_back = (address, size) ∷ m.given_back }

-- The bitmap of the slab stays as the memory holds it: only the constructor of a slab clears it.
unfoldable pub init : ℕ → ℕ → ℕ → Memory → Memory
init s a prev m =
    put_header a
      (record (m.headers a) {
        magic = magic_number;
        size = s;
        prev = prev;
        next = 0;
        free_blocks = max_blocks s;
        next_fit_block = 0;
      })
      m

unfoldable pub alloc_in_current_slab : ℕ → ℕ → ℕ → Memory → Option (ℕ × Memory)
alloc_in_current_slab s a i m = do
  mem_map ← set_one (m.headers a).mem_map i
  some (
    data_address s a i,
    put_block (block_address s a i) (record { slab_ptr = a; slab_size = s })
        (put_header a
          (record (m.headers a) {
            mem_map = mem_map;
            next_fit_block = (i + 1) % max_blocks s;
            free_blocks = ((m.headers a).free_blocks + 2 ^ 32 - 1) % 2 ^ 32;
          })
          m),
  )

-- `again` is `alloc`, which the new slab is asked in turn.
unfoldable pub alloc_in_new_slab :
    ℕ → ℕ → (ℕ → Memory → Option (ℕ × Memory)) → Memory → Option (ℕ × Memory)
unfolding request_memory_from_os init
alloc_in_new_slab s a again m =
    let new_slab = (request_memory_from_os m).0 in
    let m' = (request_memory_from_os m).1 in
    elim (new_slab == 0) [
      | true ↦ some (0, m')
      | false ↦
          let inited = init s new_slab a m' in
          again new_slab (put_header a (record (inited.headers a) { next = new_slab }) inited)
    ]

-- The block that `alloc` finds in a slab, or BITMAP_NO_BITS_LEFT.
abbrev pub free_block : SlabHeader → Option ℕ
free_block h = elim (h.free_blocks == 0) [
  | true ↦ some no_bits_left
  | false ↦ find_first_clear h.mem_map h.next_fit_block
]

abbrev pub has_magic : ℕ → ℕ → Memory → Bool
has_magic s a m = (m.headers a).magic == magic_number && (m.headers a).size == s

-- On fuel, one for each slab that is asked.
unfoldable pub alloc : ℕ → ℕ → ℕ → Memory → Option (ℕ × Memory)
unfolding alloc_in_current_slab alloc_in_new_slab
alloc s zero a m = none
alloc s (suc fuel) a m = assert (has_magic s a m) >> free_block (m.headers a) >>= λ i.
    elim (i == no_bits_left) [
      | false ↦ alloc_in_current_slab s a i m
      | true ↦ elim ((m.headers a).next == 0) [
        | false ↦ alloc s fuel (m.headers a).next m
        | true ↦ alloc_in_new_slab s a (alloc s fuel) m
      ]
    ]

unfoldable pub is_address_in_slab : ℕ → ℕ → ℕ → Bool
is_address_in_slab s a address =
    leb (blocks_address s a) address && leb address (data_address s a (max_blocks s - 1) + (s - 1))

unfoldable pub free_from_current_slab : ℕ → ℕ → ℕ → Memory → Option Memory
unfolding free_memory_to_os
free_from_current_slab s a i m = do
  mem_map ← clear_one (m.headers a).mem_map i
  let free_blocks = ((m.headers a).free_blocks + 1) % 2 ^ 32
  let freed =
      put_header a
        (record (m.headers a) { mem_map = mem_map; next_fit_block = i; free_blocks = free_blocks })
        m
  let prev = (m.headers a).prev
  some (
      if free_blocks == 0 && not (prev == 0)
      then free_memory_to_os a (8 + header_size (max_blocks s) + max_blocks s * (s + 8))
          (put_header prev (record (freed.headers prev) { next = 0 }) freed)
      else freed)

unfoldable pub free : ℕ → ℕ → ℕ → Memory → Option Memory
unfolding is_address_in_slab free_from_current_slab
free s a address m =
    let block_index = (address - blocks_address s a) / (s + 8) in
    assert (has_magic s a m)
    >> assert (is_address_in_slab s a address)
    >> check_set (m.headers a).mem_map block_index
    >>= λ taken. assert taken >> free_from_current_slab s a block_index m
