-- ===== src/VirtualMemory/Slab/Free.antt =====
-- What freeing a block does to its slab.
use cyan_oskernel.Prelude.{
  ℕ, ◌+◌, ◌-◌, ◌/◌, ◌%◌, ◌^◌, ◌<◌, ◌≡◌, ◌≢◌, refl, sym, ap, subst, ◌∙◌, true, false, some, arith,
  ◌==◌, if◌then◌else◌,
}
use cyan_oskernel.Stdlib.Bitmap.Range.{bit, one_bit, clear_range-Changed, check_set-bit}
use cyan_oskernel.VirtualMemory.Slab.{
  SlabHeader, Memory, max_blocks, blocks_address, block_address, data_address, put_header,
  has_magic, is_address_in_slab, free_from_current_slab, free,
}
use cyan_oskernel.VirtualMemory.Slab.Counts.{used_write, used_le}
use cyan_oskernel.VirtualMemory.Slab.Alloc.{IsSlab, marked}

-- The block `i` of the slab at `b` is in use, at the address `p`.
pub record Given (s b i : ℕ) (m : Memory) (p : ℕ) : Type 0 where
  pub there : b ≢ 0
  pub index : i < max_blocks s
  pub address : p ≡ data_address s b i
  pub taken : marked m b i ≡ true
  pub valid : IsSlab s (m.headers b)
  pub stamp : m.blocks (block_address s b i) ≡ record { slab_ptr = b; slab_size = s }

-- The slab at `b` has its block `i` back, and looks for a free block from there on.
pub record Freed (s b i : ℕ) (m m' : Memory) : Type 0 where
  pub marks : (q : ℕ) → marked m' b q ≡ (if i == q then false else marked m b q)
  pub valid : IsSlab s (m'.headers b)
  pub next_kept : (m'.headers b).next ≡ (m.headers b).next
  pub next_fit : (m'.headers b).next_fit_block ≡ i
  pub blocks_kept : m'.blocks ≡ m.blocks
  pub others : (c : ℕ) → c ≢ b → m'.headers c ≡ m.headers c
  pub pages_kept : m'.given_back ≡ m.given_back

module _ (s b i : ℕ) (m : Memory) (p : ℕ) (given : Given s b i m p) where
  free_from_current_slab-Freed :
      (m' : Memory) × (free_from_current_slab s b i m ≡ some m') × Freed s b i m m'
  unfolding free_from_current_slab
  free_from_current_slab-Freed =
      let h = m.headers b in
      let slab = given.valid in
      let (after, ran, c) =
        clear_range-Changed h.mem_map slab.map_valid i 1
          (omega (arith, slab.map_size, given.index)) in
      let bits : (q : ℕ) → bit after.bitmap_data q ≡ (if i == q then false else marked m b q) =
        λ q. c.bits q ∙ one_bit i q false (marked m b q) in
      let one_less =
        used_write i h.mem_map.bitmap_data after.bitmap_data false bits (max_blocks s)
          given.index in
      let room = used_le (max_blocks s) h.mem_map.bitmap_data in
      let h' : SlabHeader = record h {
        mem_map = after;
        next_fit_block = i;
        free_blocks = (h.free_blocks + 1) % 2 ^ 32;
      } in
      let m' : Memory = put_header b h' m in
      let here : m'.headers b ≡ h' = ground arith in
      let never : (h'.free_blocks == 0) ≡ false =
        ground (arith, slab.counted, slab.map_valid.small, slab.map_size) in
      (
        m',
        rw (ran, free_from_current_slab) (rw never refl),
        record {
          marks = λ q. ap (λ (k : SlabHeader). bit k.mem_map.bitmap_data q) here ∙ bits q;
          valid = subst (IsSlab s) (sym here) (record {
            magic_set = slab.magic_set;
            size_set = slab.size_set;
            map_valid = c.valid;
            map_size = c.size_kept ∙ slab.map_size;
            fit_in = given.index;
            counted = ground (
              arith, slab.counted, one_less, room, slab.map_valid.small, slab.map_size, given.taken,
            );
          });
          next_kept = ap (λ (k : SlabHeader). k.next) here;
          next_fit = ap (λ (k : SlabHeader). k.next_fit_block) here;
          blocks_kept = refl;
          others = λ e ne. ground arith;
          pages_kept = refl;
        },
      )

  -- A block in use is freed: the assertions hold, and the slab has it back.
  pub free-Freed :
      (p - blocks_address s b) / (s + 8) ≡ i
      → is_address_in_slab s b p ≡ true
      → (m' : Memory) × (free s b p m ≡ some m') × Freed s b i m m'
  unfolding free
  free-Freed at inside =
      let slab = given.valid in
      let (m', ran, freed) = free_from_current_slab-Freed in
      let magic : has_magic s b m ≡ true = ground (arith, slab.magic_set, slab.size_set) in
      (
        m',
        rw (magic, free)
            (rw inside (
              rw at (
                rw
                  (check_set-bit (m.headers b).mem_map i slab.map_valid
                    (omega (arith, slab.map_size, given.index)))
                  (rw given.taken ran)))),
        freed,
      )
