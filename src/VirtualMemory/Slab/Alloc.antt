-- ===== src/VirtualMemory/Slab/Alloc.antt =====
-- What a chain of slabs allocates.
use cyan_oskernel.Prelude.{
  ℕ, ◌+◌, ◌-◌, ◌%◌, ◌^◌, ◌<◌, ◌≡◌, ◌≢◌, refl, sym, ap, subst, ◌∙◌, Bool, true, false, some, arith,
  ◌==◌, if◌then◌else◌,
}
use cyan_oskernel.Stdlib.Bitmap.Range.{IsValid, bit, one_bit, set_range-Changed}
use cyan_oskernel.VirtualMemory.Slab.{
  SlabHeader, Memory, magic_number, max_blocks, block_address, data_address, put_header, put_block,
  alloc_in_current_slab,
}
use cyan_oskernel.VirtualMemory.Slab.Counts.{used, used_write, used_le, used_empty}

-- A slab's header between two calls: the blocks that are free and those that the bitmap marks as
-- taken make up all the blocks.
pub record IsSlab (s : ℕ) (h : SlabHeader) : Type 0 where
  pub magic_set : h.magic ≡ magic_number
  pub size_set : h.size ≡ s
  pub map_valid : IsValid h.mem_map
  pub map_size : h.mem_map.bitmap_size ≡ max_blocks s
  pub fit_in : h.next_fit_block < max_blocks s
  pub counted : h.free_blocks + used (max_blocks s) h.mem_map.bitmap_data ≡ max_blocks s

-- The header that `init` writes.
abbrev pub fresh_header : ℕ → ℕ → SlabHeader → SlabHeader
fresh_header s prev h = record h {
  magic = magic_number;
  size = s;
  prev = prev;
  next = 0;
  free_blocks = max_blocks s;
  next_fit_block = 0;
}

pub fresh_header-IsSlab :
    (s prev : ℕ) (h : SlabHeader)
    → 0 < max_blocks s
    → IsValid h.mem_map
    → h.mem_map.bitmap_size ≡ max_blocks s
    → ((q : ℕ) → bit h.mem_map.bitmap_data q ≡ false)
    → IsSlab s (fresh_header s prev h)
fresh_header-IsSlab s prev h some_blocks valid size empty = record {
  magic_set = refl;
  size_set = refl;
  map_valid = valid;
  map_size = size;
  fit_in = some_blocks;
  counted = omega (arith, used_empty (max_blocks s) h.mem_map.bitmap_data empty);
}

-- Whether the bitmap of the slab at `a` marks its block `i` as taken.
abbrev pub marked : Memory → ℕ → ℕ → Bool
marked m a i = bit (m.headers a).mem_map.bitmap_data i

-- The slab at `b` has given its block `i`, which was free, at the address `p`.
pub record Took (s b i : ℕ) (m m' : Memory) (p : ℕ) : Type 0 where
  pub index : i < max_blocks s
  pub address : p ≡ data_address s b i
  pub was_free : marked m b i ≡ false
  pub marks : (q : ℕ) → marked m' b q ≡ (if i == q then true else marked m b q)
  pub valid : IsSlab s (m'.headers b)
  pub next_kept : (m'.headers b).next ≡ (m.headers b).next
  pub stamp : m'.blocks (block_address s b i) ≡ record { slab_ptr = b; slab_size = s }
  pub others : (c : ℕ) → c ≢ b → m'.headers c ≡ m.headers c

module _ (s a i : ℕ) (m : Memory) (slab : IsSlab s (m.headers a)) (lt : i < max_blocks s)
    (clear : marked m a i ≡ false) where
  -- A free block of a slab is taken.
  pub alloc_in_current_slab-Took :
      (m' : Memory) × (alloc_in_current_slab s a i m ≡ some (data_address s a i, m'))
      × Took s a i m m' (data_address s a i)
  unfolding alloc_in_current_slab
  alloc_in_current_slab-Took =
      let h = m.headers a in
      let (after, ran, c) =
        set_range-Changed h.mem_map slab.map_valid i 1 (omega (arith, slab.map_size)) in
      let bits : (q : ℕ) → bit after.bitmap_data q ≡ (if i == q then true else marked m a q) =
        λ q. c.bits q ∙ one_bit i q true (marked m a q) in
      let one_more =
        used_write i h.mem_map.bitmap_data after.bitmap_data true bits (max_blocks s) lt in
      let room = used_le (max_blocks s) after.bitmap_data in
      let h' : SlabHeader = record h {
        mem_map = after;
        next_fit_block = (i + 1) % max_blocks s;
        free_blocks = (h.free_blocks + 2 ^ 32 - 1) % 2 ^ 32;
      } in
      let m' : Memory =
        put_block (block_address s a i) (record { slab_ptr = a; slab_size = s })
          (put_header a h' m) in
      let here : m'.headers a ≡ h' = ground arith in
      let valid : IsSlab s h' = record {
        magic_set = slab.magic_set;
        size_set = slab.size_set;
        map_valid = c.valid;
        map_size = c.size_kept ∙ slab.map_size;
        fit_in = omega (arith, lt);
        counted = ground (arith, slab.counted, one_more, room, slab.map_valid.small, slab.map_size);
      } in
      (
        m',
        rw (ran, alloc_in_current_slab) refl,
        record {
          index = lt;
          address = refl;
          was_free = clear;
          marks = λ q. ap (λ (k : SlabHeader). bit k.mem_map.bitmap_data q) here ∙ bits q;
          valid = subst (IsSlab s) (sym here) valid;
          next_kept = ap (λ (k : SlabHeader). k.next) here;
          stamp = ground arith;
          others = λ e ne. ground arith;
        },
      )
