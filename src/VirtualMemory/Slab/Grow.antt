-- ===== src/VirtualMemory/Slab/Grow.antt =====
-- The search of one slab, and the new slab behind a full one.
use cyan_oskernel.Prelude.{
  ℕ, suc, ◌<◌, ◌≡◌, ◌≢◌, inl, inr, refl, sym, ap, subst, ◌∙◌, true, false, some, [], ◌∷◌, arith,
  ◌==◌, Bool-cases,
}
use cyan_oskernel.Stdlib.Links.{mem}
use cyan_oskernel.Stdlib.Bitmap.{no_bits_left}
use cyan_oskernel.Stdlib.Bitmap.Range.{IsValid, bit}
use cyan_oskernel.Stdlib.Bitmap.Find.{
  found, missing, Hit, find_first_clear-Hit, find_first_clear-First,
}
use cyan_oskernel.VirtualMemory.Slab.{
  SlabHeader, Memory, max_blocks, data_address, put_header, take_answer, free_block, has_magic,
  alloc_in_current_slab, alloc_in_new_slab, alloc, request_memory_from_os, init,
}
use cyan_oskernel.VirtualMemory.Slab.Alloc.{
  IsSlab, fresh_header, fresh_header-IsSlab, marked, Took, alloc_in_current_slab-Took,
}
use cyan_oskernel.VirtualMemory.Slab.Chain.{Linked, Fresh, Grew, Allocated, grown, refused}

module _ (s a : ℕ) (m : Memory) (slab : IsSlab s (m.headers a)) where
  pub free_block-Hit :
      (r : ℕ) × (free_block (m.headers a) ≡ some r) × Hit false (m.headers a).mem_map r
  free_block-Hit = elim (Bool-cases ((m.headers a).free_blocks == 0)) [
    | inl full ↦ (no_bits_left, rw (full, free_block) refl, inl refl)
    | inr room ↦
        let (r, ran, hit) =
          find_first_clear-Hit (m.headers a).mem_map slab.map_valid (m.headers a).next_fit_block in
        (r, rw (room, free_block) ran, hit)
  ]

  -- What `alloc` does at a slab whose search has an answer.
  alloc-searched :
      (f r : ℕ)
      → free_block (m.headers a) ≡ some r
      → alloc s (suc f) a m ≡ (elim (r == no_bits_left) [
        | false ↦ alloc_in_current_slab s a r m
        | true ↦ elim ((m.headers a).next == 0) [
          | false ↦ alloc s f (m.headers a).next m
          | true ↦ alloc_in_new_slab s a (alloc s f) m
        ]
      ])
  unfolding alloc
  alloc-searched f r e =
      let magic : has_magic s a m ≡ true = ground (arith, slab.magic_set, slab.size_set) in
      rw (magic, alloc) (rw e refl)

  -- A block is found: it is taken.
  pub alloc_here :
      (f r : ℕ)
      → free_block (m.headers a) ≡ some r
      → r < (m.headers a).mem_map.bitmap_size
      → marked m a r ≡ false
      → (m' : Memory) × (alloc s (suc f) a m ≡ some (data_address s a r, m'))
        × Took s a r m m' (data_address s a r)
  alloc_here f r e lt clear =
      let (m', ran, took) =
        alloc_in_current_slab-Took s a r m slab (omega (arith, slab.map_size)) clear in
      let test : (r == no_bits_left) ≡ false = ground (arith, slab.map_valid.small) in
      (m', alloc-searched f r e ∙ rw test ran, took)

  -- No block is found, and there is a slab behind this one.
  pub alloc_behind :
      (f : ℕ)
      → free_block (m.headers a) ≡ some no_bits_left
      → (m.headers a).next ≢ 0
      → alloc s (suc f) a m ≡ alloc s f (m.headers a).next m
  alloc_behind f e more =
      let test : ((m.headers a).next == 0) ≡ false = ground arith in
      alloc-searched f no_bits_left e ∙ rw test refl

  pub alloc_last :
      (f : ℕ)
      → free_block (m.headers a) ≡ some no_bits_left
      → (m.headers a).next ≡ 0
      → alloc s (suc f) a m ≡ alloc_in_new_slab s a (alloc s f) m
  alloc_last f e end =
      let test : ((m.headers a).next == 0) ≡ true = ground arith in
      alloc-searched f no_bits_left e ∙ rw test refl

  -- The system refuses a page.
  alloc_in_new_slab-refused :
      (f : ℕ)
      → (take_answer m.answers).0 ≡ 0
      → (m' : Memory) × (alloc_in_new_slab s a (alloc s f) m ≡ some (0, m'))
        × ((c : ℕ) → m'.headers c ≡ m.headers c)
  unfolding alloc_in_new_slab request_memory_from_os
  alloc_in_new_slab-refused f none_left =
      let test : ((take_answer m.answers).0 == 0) ≡ true = ground arith in
      (
        record m { answers = (take_answer m.answers).1 },
        rw (test, alloc_in_new_slab) refl,
        λ c. refl,
      )

-- The memory with a new slab at `b`, which follows the one at `a`.
abbrev grown_memory : ℕ → ℕ → ℕ → Memory → Memory
grown_memory s a b m =
    let m₀ : Memory = record m { answers = (take_answer m.answers).1 } in
    let m₁ = put_header b (fresh_header s a (m.headers b)) m₀ in
    put_header a (record (m₁.headers a) { next = b }) m₁

-- The first slab that a search finds free is the new one's.
fresh_block :
    (s : ℕ) (h : SlabHeader)
    → IsSlab s h
    → 0 < max_blocks s
    → h.free_blocks ≡ max_blocks s
    → h.next_fit_block ≡ 0
    → ((q : ℕ) → bit h.mem_map.bitmap_data q ≡ false)
    → (r : ℕ) × (free_block h ≡ some r) × (r < h.mem_map.bitmap_size)
fresh_block s h slab some_blocks all start empty =
    let room : (h.free_blocks == 0) ≡ false = ground arith in
    let (r, ran, first) =
      find_first_clear-First h.mem_map slab.map_valid h.next_fit_block (omega arith) in
    (
      r,
      rw (room, free_block) ran,
      elim first [
        | found le lt clear before ↦ lt
        | missing e full ↦
            absurd (ground (arith, full 0 (omega arith) (omega (arith, slab.map_size)), empty 0))
      ],
    )

module _ (s a b : ℕ) (m : Memory) (slab : IsSlab s (m.headers a)) (some_blocks : 0 < max_blocks s)
    (answered : (take_answer m.answers).0 ≡ b) (there : b ≢ 0) (apart : b ≢ a)
    (valid : IsValid (m.headers b).mem_map)
    (size : (m.headers b).mem_map.bitmap_size ≡ max_blocks s)
    (empty : (q : ℕ) → marked m b q ≡ false) where
  abbrev m₁ : Memory
  m₁ = grown_memory s a b m

  alloc_in_new_slab-asks : (f : ℕ) → alloc_in_new_slab s a (alloc s f) m ≡ alloc s f b m₁
  unfolding alloc_in_new_slab request_memory_from_os init
  alloc_in_new_slab-asks f =
      let test : ((take_answer m.answers).0 == 0) ≡ false = ground arith in
      rw (test, alloc_in_new_slab) (ap (λ (x : ℕ). alloc s f x (grown_memory s a x m)) answered)

  new_header : m₁.headers b ≡ fresh_header s a (m.headers b)
  new_header = ground arith

  old_header : m₁.headers a ≡ record (m.headers a) { next = b }
  old_header = ground arith

  new-IsSlab : IsSlab s (m₁.headers b)
  new-IsSlab =
      subst (IsSlab s) (sym new_header)
        (fresh_header-IsSlab s a (m.headers b) some_blocks valid size empty)

  new_empty : (q : ℕ) → marked m₁ b q ≡ false
  new_empty q = ap (λ (k : SlabHeader). bit k.mem_map.bitmap_data q) new_header ∙ empty q

  -- A new slab is asked once, and gives a block.
  grow :
      (f : ℕ)
      → (i : ℕ) × (m' : Memory) × (alloc_in_new_slab s a (alloc s (suc f)) m
          ≡ some (data_address s b i, m'))
        × Grew s a [] b i m m' (data_address s b i)
  unfolding Linked mem
  grow f =
      let (r, ran, lt) =
        fresh_block s (m₁.headers b) new-IsSlab some_blocks
          (ap (λ (k : SlabHeader). k.free_blocks) new_header)
          (ap (λ (k : SlabHeader). k.next_fit_block) new_header) new_empty in
      let (m', went, took) = alloc_here s b m₁ new-IsSlab f r ran lt (new_empty r) in
      let first = took.others a (λ e. apart (sym e)) ∙ old_header in
      (
        r,
        m',
        alloc_in_new_slab-asks (suc f) ∙ went,
        record {
          answered = answered;
          index = took.index;
          address = refl;
          there = there;
          was_empty = empty;
          valid = took.valid;
          marks = λ q. took.marks q ∙ ground (arith, new_empty q);
          stamp = took.stamp;
          linked = (
            subst (IsSlab s) (sym first) (record {
              magic_set = slab.magic_set;
              size_set = slab.size_set;
              map_valid = slab.map_valid;
              map_size = slab.map_size;
              fit_in = slab.fit_in;
              counted = slab.counted;
            }),
            ap (λ (k : SlabHeader). k.next) first,
            there,
            (took.valid, took.next_kept ∙ ap (λ (k : SlabHeader). k.next) new_header),
          );
          maps_kept = λ c ne. ap (λ (k : SlabHeader). k.mem_map) (took.others c ne) ∙ ground arith;
          others = λ c e ne. took.others c ne ∙ ground (arith, e);
        },
      )

-- A chain of one slab that has no block left grows, or the system refuses.
pub last_slab :
    (s a : ℕ) (m : Memory) (f : ℕ)
    → 0 < max_blocks s
    → Fresh s m (a ∷ [])
    → IsSlab s (m.headers a)
    → (p : ℕ) × (m' : Memory) × (alloc_in_new_slab s a (alloc s (suc f)) m ≡ some (p, m'))
      × Allocated s a [] m m' p
unfolding mem
last_slab s a m f some_blocks (inl none_left) slab =
    let (m', ran, same) = alloc_in_new_slab-refused s a m slab (suc f) none_left in
    (0, m', ran, refused none_left refl same)
last_slab s a m f some_blocks (inr (there, out, valid, size, empty)) slab =
    let b = (take_answer m.answers).0 in
    let apart : b ≢ a = ground (arith, out) in
    let (i, m', ran, g) = grow s a b m slab some_blocks refl there apart valid size empty f in
    (data_address s b i, m', ran, grown b i g)
